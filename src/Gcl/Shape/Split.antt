-- ===== src/Gcl/Shape/Split.antt =====
-- The names of the parts are found in the names of arrays, maps and structs.
use dioxide_python.Prelude.{
  ℕ, suc, ◌+◌, ◌≡◌, refl, ◌∙◌, ap, true, false, ◌==◌, List, [], ◌∷◌, ◌++◌, append_assoc, append-nil,
  arith,
}
use dioxide_python.Prelude.{some, length, drop, if◌then◌else◌, take-length_append, suc_ne_zero}
use dioxide_python.Prelude.Int.{pos}
use dioxide_python.Prelude.Result.{ok}
use dioxide_python.Text.{Text, codes, is_empty, find}
use dioxide_python.Text.Laws.{strip-no_space, inner_lem, ends_with_last}
use dioxide_python.Gcl.TypeName.{
  split_loop, extract_array_element_type, extract_map_types, extract_struct_member_types,
}
use dioxide_python.Gcl.Shape.{
  Key, Shape, Members, fixed_name, key_name, name, members_name, others_name, names,
}
use dioxide_python.Gcl.Shape.Names.{
  plain, plain-fixed_name, plain-key_name, no_space-key_name, no_space-name, no_space-members_name,
  is_empty-name,
}

pub extract_array-name :
    (s : Shape) → extract_array_element_type (name (Shape.array s)) ≡ ok (name s)
unfolding extract_array_element_type name
extract_array-name s =
    rw (ends_with_last (codes "array<" ++ name s) b'>', inner_lem (codes "array<") (name s) b'>')

find-plain : (t rest : Text) → plain t ≡ true → find b',' (t ++ (b',' ∷ rest)) ≡ some (length t)
unfolding find
find-plain [] rest h = refl
find-plain (c ∷ t) rest h = ground (arith, find-plain t rest)

drop-past_suc : (t rest : Text) (c : ℕ) → drop (suc (length t)) (t ++ (c ∷ rest)) ≡ rest
drop-past_suc [] rest c = refl
drop-past_suc (a ∷ t) rest c = drop-past_suc t rest c

pub drop-past : (t rest : Text) (c : ℕ) → drop (length t + 1) (t ++ (c ∷ rest)) ≡ rest
drop-past t rest c =
    let e : length t + 1 ≡ suc (length t) = omega arith in rw e (drop-past_suc t rest c)

pub extract_map-name :
    (k : Key) (s : Shape) → extract_map_types (name (Shape.map k s)) ≡ ok (key_name k, name s)
unfolding extract_map_types name
extract_map-name k s =
    let inside : Text = key_name k ++ (b',' ∷ name s) in
    rw (
      ends_with_last (codes "map<" ++ inside) b'>',
      inner_lem (codes "map<") inside b'>',
      find-plain (key_name k) (name s) (plain-key_name k),
      take-length_append (key_name k) (b',' ∷ name s),
      drop-past (key_name k) (name s) b',',
      strip-no_space (key_name k) (no_space-key_name k),
      strip-no_space (name s) (no_space-name s),
    )

module _ (parts : List Text) where
  -- The splitter reads `body` on, at any depth, and inside brackets.
  abbrev pub Passes : Text → Type 0
  Passes body =
      (cur rest : Text) (d : ℕ)
      → split_loop parts cur (pos d) (body ++ rest) ≡ split_loop parts (cur ++ body) (pos d) rest

  abbrev PassesInside : Text → Type 0
  PassesInside body =
      (cur rest : Text) (d : ℕ)
      → split_loop parts cur (pos (suc d)) (body ++ rest)
        ≡ split_loop parts (cur ++ body) (pos (suc d)) rest

  plain_char :
      (c : ℕ) (t : Text)
      → plain (c ∷ t) ≡ true
      → ((c == b'<') ≡ false) × ((c == b'>') ≡ false) × ((c == b',') ≡ false) × (plain t ≡ true)
  plain_char c t h = ground arith

  pub plain-Passes : (t : Text) → plain t ≡ true → Passes t
  unfolding split_loop
  plain-Passes [] h cur rest d = rw append-nil
  plain-Passes (c ∷ t) h cur rest d =
      let (lt, gt, comma, more) = plain_char c t h in
      rw (lt, gt, comma)
        (plain-Passes t more (cur ++ (c ∷ [])) rest d
          ∙ ap (λ (x : Text). split_loop parts x (pos d) rest) (append_assoc cur (c ∷ []) t))

  pub append-Passes : (s t : Text) → Passes s → Passes t → Passes (s ++ t)
  append-Passes s t hs ht cur rest d =
      rw (append_assoc s t rest, hs cur (t ++ rest) d, ht (cur ++ s) rest d, append_assoc cur s t)

  append-PassesInside : (s t : Text) → PassesInside s → PassesInside t → PassesInside (s ++ t)
  append-PassesInside s t hs ht cur rest d =
      rw (append_assoc s t rest, hs cur (t ++ rest) d, ht (cur ++ s) rest d, append_assoc cur s t)

  inside : (s : Text) → Passes s → PassesInside s
  inside s h cur rest d = h cur rest (suc d)

  comma-PassesInside : PassesInside (b',' ∷ [])
  unfolding split_loop
  comma-PassesInside cur rest d = rw (suc_ne_zero d)

  bracket-Passes : (body : Text) → PassesInside body → Passes (b'<' ∷ (body ++ (b'>' ∷ [])))
  unfolding split_loop
  bracket-Passes body h cur rest d = rw (append_assoc body (b'>' ∷ []) rest) (
      h (cur ++ (b'<' ∷ [])) (b'>' ∷ rest) d
      ∙ ap (λ (x : Text). split_loop parts x (pos d) rest) (simp append_assoc))

  mutual
    unfolding name

    pub name-Passes : (s : Shape) → Passes (name s)
    name-Passes (Shape.fixed k) = plain-Passes (fixed_name k) (plain-fixed_name k)
    name-Passes Shape.string = plain-Passes (codes "string") refl
    name-Passes Shape.bigint = plain-Passes (codes "bigint") refl
    name-Passes Shape.token = plain-Passes (codes "token") refl
    name-Passes (Shape.array s) =
        append-Passes (codes "array") (b'<' ∷ (name s ++ (b'>' ∷ [])))
          (plain-Passes (codes "array") refl)
          (bracket-Passes (name s) (inside (name s) (name-Passes s)))
    name-Passes (Shape.map k s) =
        append-Passes (codes "map") (b'<' ∷ ((key_name k ++ (b',' ∷ name s)) ++ (b'>' ∷ [])))
          (plain-Passes (codes "map") refl)
          (bracket-Passes (key_name k ++ (b',' ∷ name s)) (
            append-PassesInside (key_name k) (b',' ∷ name s)
              (inside (key_name k) (plain-Passes (key_name k) (plain-key_name k)))
              (append-PassesInside (b',' ∷ []) (name s) comma-PassesInside
                (inside (name s) (name-Passes s)))))
    name-Passes (Shape.struct ms) =
        append-Passes (codes "struct") (b'<' ∷ (members_name ms ++ (b'>' ∷ [])))
          (plain-Passes (codes "struct") refl)
          (bracket-Passes (members_name ms) (members_name-PassesInside ms))

    members_name-PassesInside : (ms : Members) → PassesInside (members_name ms)
    members_name-PassesInside Members.none = inside [] (plain-Passes [] refl)
    members_name-PassesInside (Members.more s ms) =
        append-PassesInside (name s) (others_name ms) (inside (name s) (name-Passes s))
          (others_name-PassesInside ms)

    others_name-PassesInside : (ms : Members) → PassesInside (others_name ms)
    others_name-PassesInside Members.none = inside [] (plain-Passes [] refl)
    others_name-PassesInside (Members.more s ms) =
        append-PassesInside (b',' ∷ name s) (others_name ms)
          (append-PassesInside (b',' ∷ []) (name s) comma-PassesInside
            (inside (name s) (name-Passes s)))
          (others_name-PassesInside ms)

-- At the top each comma ends a part.
split-members :
    (parts : List Text) (s : Shape) (ms : Members)
    → split_loop parts [] (pos 0) (name s ++ others_name ms) ≡ parts ++ (name s ∷ names ms)
unfolding split_loop name names
split-members parts s Members.none =
    name-Passes parts s [] [] 0 ∙ rw (strip-no_space (name s) (no_space-name s), is_empty-name s)
split-members parts s (Members.more s' ms) =
    name-Passes parts s [] (b',' ∷ (name s' ++ others_name ms)) 0
    ∙ rw (strip-no_space (name s) (no_space-name s)) (
        split-members (parts ++ (name s ∷ [])) s' ms
        ∙ append_assoc parts (name s ∷ []) (name s' ∷ names ms))

pub is_empty-append : (s t : Text) → is_empty s ≡ false → is_empty (s ++ t) ≡ false
is_empty-append [] t h = cc
is_empty-append (c ∷ s) t h = refl

pub extract_struct-name :
    (ms : Members) → extract_struct_member_types (name (Shape.struct ms)) ≡ ok (names ms)
unfolding extract_struct_member_types name names
extract_struct-name ms =
    rw
      (
        ends_with_last (codes "struct<" ++ members_name ms) b'>',
        inner_lem (codes "struct<") (members_name ms) b'>',
        strip-no_space (members_name ms) (no_space-members_name ms),
      )
      (go ms)
  where
    go :
        (ms : Members)
        → ok (if is_empty (members_name ms) then [] else split_loop [] [] (pos 0) (members_name ms))
          ≡ ok (names ms)
    go Members.none = refl
    go (Members.more s ms) =
        rw (is_empty-append (name s) (others_name ms) (is_empty-name s))
          (ap ok (split-members [] s ms))
