-- ===== src/Text/Lengths.antt =====
-- No operation on a text that strips it or takes a part of it makes it longer.
use dioxide_python.Prelude.{ℕ, suc, ◌-◌, ◌≤◌, ◌<◌, [], ◌∷◌, arith}
use dioxide_python.Prelude.{length, drop, length-take, length-drop}
use dioxide_python.Text.{Text, inner, lstrip, rstrip, keep_unless_last, strip}

length-lstrip : (t : Text) → length (lstrip t) ≤ length t
unfolding lstrip
length-lstrip [] = omega arith
length-lstrip (c ∷ t) = ground (arith, length-lstrip t)

length-keep : (c : ℕ) (t : Text) → length (keep_unless_last c t) ≤ suc (length t)
length-keep c [] = ground arith
length-keep c (d ∷ t) = omega arith

length-rstrip : (t : Text) → length (rstrip t) ≤ length t
unfolding rstrip
length-rstrip [] = omega arith
length-rstrip (c ∷ t) = omega (arith, length-rstrip t, length-keep c (rstrip t))

pub length-strip : (t : Text) → length (strip t) ≤ length t
unfolding strip
length-strip t = omega (arith, length-lstrip t, length-rstrip (lstrip t))

-- A part without the last character is shorter.
pub length-inner : (n : ℕ) (t : Text) → 1 ≤ length t → length (inner n t) < length t
length-inner n t some = omega (arith, length-take (length t - 1 - n) (drop n t), length-drop n t)
