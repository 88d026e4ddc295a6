-- ===== src/Casing/Tests.antt =====
-- `camelToSnake` and `snakeToCamel` on a few names.
use baresync.Prelude.{◌≡◌, refl}
use baresync.Casing.{camel_to_snake, snake_to_camel}

with_capitals_inside : camel_to_snake "spaceIdX" ≡ "space_id_x"
unfolding camel_to_snake
with_capitals_inside = refl

capital_in_front : camel_to_snake "SpaceId" ≡ "space_id"
unfolding camel_to_snake
capital_in_front = refl

digit_behind : snake_to_camel "space_id_2" ≡ "spaceId_2"
unfolding snake_to_camel
digit_behind = refl
