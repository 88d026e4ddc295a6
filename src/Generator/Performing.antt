-- ===== src/Generator/Performing.antt =====
-- The writing of files, one after the other: how it fails, and what it has done where it returns.
use mathlib.Core.List.{append-nil, append_assoc}
use baresync.Prelude.{
  String, Bool, true, false, Option, none, some, List, [], ◌∷◌, ◌++◌, ◌≡◌, refl, sym, ap, ◌∙◌,
  subst, ◌⊎◌, inl, inr, ok, throw, throw-injective,
}
use baresync.Generator.{GeneratorError, not_written}
use baresync.Generator.Platform.{Platform, Action, Run, failed, target, attempt, after, perform}

-- Behind what was done, a directory was not made, or a file not written or copied, because the file
-- system refused it.
pub record IsUnwritten (platform : Platform) (done : List Action) (error : GeneratorError)
    : Type 0 where
  pub action : Action
  pub path : String
  pub writes : target action ≡ some path
  pub named : error ≡ not_written path
  pub refused : platform.permits done action ≡ false

attempt-cases :
    (o : Option String) (permitted : Bool) (next : Run)
    → ((path : String) × (o ≡ some path)
        × (permitted ≡ false)
        × (attempt o permitted next ≡ failed (not_written path)))
      ⊎ (attempt o permitted next ≡ next)
attempt-cases none permitted next = inr refl
attempt-cases (some path) true next = inr refl
attempt-cases (some path) false next = inl (path, refl, refl, refl)

attempt-ok :
    (o : Option String) (permitted : Bool) (next : Run)
    → (attempt o permitted next).outcome ≡ ok tt
    → attempt o permitted next ≡ next
attempt-ok none permitted next e = refl
attempt-ok (some path) true next e = refl
attempt-ok (some path) false next e = cc

-- Where it throws, nothing was done behind the action that was refused.
pub perform-IsUnwritten :
    (platform : Platform) (done actions : List Action) (e : GeneratorError)
    → (perform platform done actions).outcome ≡ throw e
    → IsUnwritten platform (done ++ (perform platform done actions).actions) e
unfolding perform
perform-IsUnwritten platform done [] e failing = cc
perform-IsUnwritten platform done (action ∷ actions) e failing =
    let later = perform platform (done ++ action ∷ []) actions in
    let permitted = platform.permits done action in
    elim (attempt-cases (target action) permitted (after (action ∷ []) later)) [
      | inl (path, writes, refused, stops) ↦
          subst (λ (run : Run). IsUnwritten platform (done ++ run.actions) e) (sym stops)
            (subst (λ before. IsUnwritten platform before e) (sym (append-nil done))
              (record {
                action = action;
                path = path;
                writes = writes;
                named = throw-injective (sym failing ∙ ap (λ (run : Run). run.outcome) stops);
                refused = refused;
              }))
      | inr passes ↦
          subst (λ (run : Run). IsUnwritten platform (done ++ run.actions) e) (sym passes)
            (subst (λ before. IsUnwritten platform before e)
              (append_assoc done (action ∷ []) later.actions)
              (perform-IsUnwritten platform (done ++ action ∷ []) actions e
                (ap (λ (run : Run). run.outcome) (sym passes) ∙ failing)))
    ]

-- Where it returns, every action was done.
pub perform-ok :
    (platform : Platform) (done actions : List Action)
    → (perform platform done actions).outcome ≡ ok tt
    → (perform platform done actions).actions ≡ actions
unfolding perform
perform-ok platform done [] e = refl
perform-ok platform done (action ∷ actions) e =
    let later = perform platform (done ++ action ∷ []) actions in
    let onward =
      attempt-ok (target action) (platform.permits done action) (after (action ∷ []) later) e in
    ap (λ run. run.actions) onward
    ∙ ap (λ later_ones. action ∷ later_ones)
        (perform-ok platform (done ++ action ∷ []) actions
          (subst (λ run. run.outcome ≡ ok tt) onward e))
