-- ===== src/Retrieve/Router/Single.antt =====
-- The arithmetic of `f32` that retrieve/router.rs needs: numbers that are not negative, as counts of
-- 2^-25, with 24 significant bits, rounded to the nearest and on a tie to the even one.
use wend_rag.Base.{ℕ, zero, suc, ◌+◌, ◌*◌, ◌/◌, ◌%◌, ◌^◌, ltb, ◌==◌, if◌then◌else◌}

-- The nearest multiple of `d`.
unfoldable pub nearest : ℕ → ℕ → ℕ
nearest d x =
    let down = x / d * d in
    let r = x % d in
    if ltb (2 * r) d
    then down
    else if ltb d (2 * r)
    then down + d
    else if (x / d) % 2 == 0
    then down
    else down + d

-- `d` is the distance of the numbers below `2 ^ 24 * d`, doubled until `x` is below.
unfoldable pub round_from : ℕ → ℕ → ℕ → ℕ
unfolding nearest
round_from zero d x = nearest d x
round_from (suc fuel) d x =
    let wider = round_from fuel (2 * d) x in if ltb x (2 ^ 24 * d) then nearest d x else wider

-- Forty doublings reach beyond 2 ^ 64.
unfoldable pub round : ℕ → ℕ
unfolding round_from
round x = round_from 40 1 x

-- 0.3, 0.5, 0.6, 0.7, 0.8 and 1.0 as `f32`
abbrev pub tenths_3 : ℕ
tenths_3 = 10066330

abbrev pub tenths_5 : ℕ
tenths_5 = 16777216

abbrev pub tenths_6 : ℕ
tenths_6 = 20132660

abbrev pub tenths_7 : ℕ
tenths_7 = 23488102

abbrev pub tenths_8 : ℕ
tenths_8 = 26843546

abbrev pub one : ℕ
one = 33554432
