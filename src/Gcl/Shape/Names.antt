-- ===== src/Gcl/Shape/Names.antt =====
-- The names of the types hold no space, and are never empty.
use dioxide_python.Prelude.{
  ◌≡◌, refl, Bool, true, false, not, ◌&&◌, ◌||◌, ◌==◌, [], ◌∷◌, ◌++◌, arith,
}
use dioxide_python.Text.{Text, is_empty, is_space}
use dioxide_python.Text.Laws.{no_space}
use dioxide_python.Gcl.Shape.{
  Width, FloatWidth, Fixed, Key, Shape, Members, fixed_name, key_name, name, members_name,
  others_name,
}

-- Neither a bracket nor a comma.
abbrev pub plain : Text → Bool
plain [] = true
plain (c ∷ t) = not (c == b'<' || (c == b'>' || c == b',')) && plain t

pub plain-fixed_name : (k : Fixed) → plain (fixed_name k) ≡ true
plain-fixed_name Fixed.bool = refl
plain-fixed_name (Fixed.uint Width.w8) = refl
plain-fixed_name (Fixed.uint _) = refl
plain-fixed_name (Fixed.int Width.w8) = refl
plain-fixed_name (Fixed.int _) = refl
plain-fixed_name (Fixed.float FloatWidth.f256) = refl
plain-fixed_name (Fixed.float _) = refl
plain-fixed_name _ = refl

no_space-append : (s t : Text) → no_space s ≡ true → no_space t ≡ true → no_space (s ++ t) ≡ true
no_space-append [] t hs ht = ht
no_space-append (c ∷ s) t hs ht = ground (arith, no_space-append s t)

no_space-fixed_name : (k : Fixed) → no_space (fixed_name k) ≡ true
unfolding is_space
no_space-fixed_name Fixed.bool = refl
no_space-fixed_name (Fixed.uint Width.w8) = refl
no_space-fixed_name (Fixed.uint _) = refl
no_space-fixed_name (Fixed.int Width.w8) = refl
no_space-fixed_name (Fixed.int _) = refl
no_space-fixed_name (Fixed.float FloatWidth.f256) = refl
no_space-fixed_name (Fixed.float _) = refl
no_space-fixed_name _ = refl

pub plain-key_name : (k : Key) → plain (key_name k) ≡ true
plain-key_name (Key.fixed k) = plain-fixed_name k
plain-key_name Key.string = refl
plain-key_name Key.bigint = refl

pub no_space-key_name : (k : Key) → no_space (key_name k) ≡ true
unfolding is_space
no_space-key_name (Key.fixed k) = no_space-fixed_name k
no_space-key_name Key.string = refl
no_space-key_name Key.bigint = refl

mutual
  unfolding name is_space

  pub no_space-name : (s : Shape) → no_space (name s) ≡ true
  no_space-name (Shape.fixed k) = no_space-fixed_name k
  no_space-name Shape.string = refl
  no_space-name Shape.bigint = refl
  no_space-name Shape.token = refl
  no_space-name (Shape.array s) = no_space-append (name s) (b'>' ∷ []) (no_space-name s) refl
  no_space-name (Shape.map k s) =
      no_space-append (key_name k ++ (b',' ∷ name s)) (b'>' ∷ [])
        (no_space-append (key_name k) (b',' ∷ name s) (no_space-key_name k) (no_space-name s)) refl
  no_space-name (Shape.struct ms) =
      no_space-append (members_name ms) (b'>' ∷ []) (no_space-members_name ms) refl

  pub no_space-members_name : (ms : Members) → no_space (members_name ms) ≡ true
  no_space-members_name Members.none = refl
  no_space-members_name (Members.more s ms) =
      no_space-append (name s) (others_name ms) (no_space-name s) (no_space-others_name ms)

  no_space-others_name : (ms : Members) → no_space (others_name ms) ≡ true
  no_space-others_name Members.none = refl
  no_space-others_name (Members.more s ms) =
      no_space-append (name s) (others_name ms) (no_space-name s) (no_space-others_name ms)

pub is_empty-name : (s : Shape) → is_empty (name s) ≡ false
unfolding name
is_empty-name (Shape.fixed Fixed.bool) = refl
is_empty-name (Shape.fixed (Fixed.float FloatWidth.f256)) = refl
is_empty-name (Shape.fixed (Fixed.float _)) = refl
is_empty-name (Shape.fixed _) = refl
is_empty-name _ = refl
