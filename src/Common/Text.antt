-- ===== src/Common/Text.antt =====
-- Go strings as lists of bytes, and what the source uses of the package strings.
use Prim.Native.Nat.{ℕ, suc, ◌+◌, ◌-◌}
use Prim.Native.Char.{code}
use Prim.Native.String.{String}
use mathlib.Core.Path.{◌≡◌}
use mathlib.Core.Logic.{◌↔◌}
use mathlib.Core.Bool.{Bool, true, false, ◌&&◌, ◌||◌}
use mathlib.Core.List.{List, [], ◌∷◌, ◌++◌}
use mathlib.Core.Option.{Option, none, some}
use native.Mathlib.Omega.{arith}
use rowset_studio.Common.Lists.{drop, length}
use rowset_studio.Common.Logic.{ltb, leb, ◌==◌, if◌then◌else◌}

abbrev pub Bytes : Type 0
Bytes = List ℕ

-- The bytes of an ASCII literal.
abbrev pub codes : String → Bytes
codes String.[] = []
codes (String.◌∷◌ c s) = code c ∷ codes s

unfoldable pub bytes_eq : Bytes → Bytes → Bool
bytes_eq [] [] = true
bytes_eq (x ∷ xs) (y ∷ ys) = x == y && bytes_eq xs ys
bytes_eq _ _ = false

pub bytes_eq_iff : (a b : Bytes) → (bytes_eq a b ≡ true) ↔ (a ≡ b)
unfolding bytes_eq
bytes_eq_iff (x ∷ a) (y ∷ b) = ground (arith, bytes_eq_iff a b)
bytes_eq_iff _ _ = ground arith

-- `s == "literal"`.
abbrev pub is_word : Bytes → String → Bool
is_word s w = bytes_eq s (codes w)

-- The labels of one `case`.
unfoldable pub any_word : Bytes → List String → Bool
unfolding bytes_eq
any_word s [] = false
any_word s (w ∷ ws) = is_word s w || any_word s ws

-- strings.HasPrefix.
unfoldable pub has_prefix : Bytes → Bytes → Bool
has_prefix s [] = true
has_prefix [] (p ∷ ps) = false
has_prefix (c ∷ cs) (p ∷ ps) = c == p && has_prefix cs ps

abbrev pub lower_byte : ℕ → ℕ
lower_byte c = if leb b'A' c && leb c b'Z' then c + 32 else c

abbrev pub upper_byte : ℕ → ℕ
upper_byte c = if leb b'a' c && leb c b'z' then c - 32 else c

unfoldable pub is_ascii : Bytes → Bool
is_ascii [] = true
is_ascii (c ∷ cs) = ltb c 0x80 && is_ascii cs

-- strings.Index: where the first occurrence begins.
unfoldable pub index_of : Bytes → Bytes → Option ℕ
unfolding has_prefix
index_of [] p = if has_prefix [] p then some 0 else none
index_of (c ∷ cs) p = elim (has_prefix (c ∷ cs) p) [
  | true ↦ some 0
  | false ↦ elim (index_of cs p) [ none ↦ none | some k ↦ some (suc k) ]
]

reverse_onto : Bytes → Bytes → Bytes
reverse_onto out [] = out
reverse_onto out (c ∷ cs) = reverse_onto (c ∷ out) cs

one_of_bytes : ℕ → Bytes → Bool
one_of_bytes c [] = false
one_of_bytes c (d ∷ ds) = c == d || one_of_bytes c ds

trim_left_cutset : Bytes → Bytes → Bytes
trim_left_cutset cut [] = []
trim_left_cutset cut (c ∷ cs) = if one_of_bytes c cut then trim_left_cutset cut cs else c ∷ cs

-- strings.Trim with an ASCII cutset.
unfoldable pub trim_cutset : Bytes → Bytes → Bytes
unfolding trim_left_cutset one_of_bytes reverse_onto
trim_cutset s cut =
    reverse_onto [] (trim_left_cutset cut (reverse_onto [] (trim_left_cutset cut s)))

-- strings.TrimRight with an ASCII cutset.
unfoldable pub trim_right : Bytes → Bytes → Bytes
unfolding trim_left_cutset one_of_bytes reverse_onto
trim_right s cut = reverse_onto [] (trim_left_cutset cut (reverse_onto [] s))

-- The code points of unicode.IsSpace, by their UTF-8 length.
space1 : ℕ → Bool
space1 a = (leb 9 a && leb a 13) || a == 32

space2 : ℕ → ℕ → Bool
space2 a b = a == 0xC2 && (b == 0x85 || b == 0xA0)

space3 : ℕ → ℕ → ℕ → Bool
space3 a b c =
    (a == 0xE1 && b == 0x9A && c == 0x80)
    || (a == 0xE2
        && b == 0x80
        && ((leb 0x80 c && leb c 0x8A) || c == 0xA8 || c == 0xA9 || c == 0xAF))
    || (a == 0xE2 && b == 0x81 && c == 0x9F)
    || (a == 0xE3 && b == 0x80 && c == 0x80)

trim_spaces : (ℕ → ℕ → Bool) → (ℕ → ℕ → ℕ → Bool) → Bytes → Bytes
unfolding space1
trim_spaces two three [] = []
trim_spaces two three (a ∷ []) = if space1 a then [] else a ∷ []
trim_spaces two three (a ∷ b ∷ []) = elim (space1 a) [
  | true ↦ trim_spaces two three (b ∷ [])
  | false ↦ if two a b then [] else a ∷ b ∷ []
]
trim_spaces two three (a ∷ b ∷ c ∷ r) = elim (space1 a) [
  | true ↦ trim_spaces two three (b ∷ c ∷ r)
  | false ↦ elim (two a b) [
    | true ↦ trim_spaces two three (c ∷ r)
    | false ↦ elim (three a b c) [ true ↦ trim_spaces two three r | false ↦ a ∷ b ∷ c ∷ r ]
  ]
]

-- strings.TrimSpace; the right end is read backwards, its code points too.
unfoldable pub trim_space : Bytes → Bytes
unfolding trim_spaces space1 space2 space3 reverse_onto
trim_space s = reverse_onto [] (
    trim_spaces (λ b a. space2 a b) (λ c b a. space3 a b c)
      (reverse_onto [] (trim_spaces space2 space3 s)))

-- strings.Join.
unfoldable pub join : Bytes → List Bytes → Bytes
join sep [] = []
join sep (p ∷ []) = p
join sep (p ∷ q ∷ ps) = p ++ (sep ++ join sep (q ∷ ps))

-- `m[key] = value` on a map that is a function, with its zero value where no key is set.
unfoldable pub set_at {ℓ} : {A : Type ℓ} → (Bytes → A) → Bytes → A → Bytes → A
set_at m key value k = if bytes_eq key k then value else m k

-- strings.Cut at one byte: what is in front of it, what is behind it, and whether it is there.
unfoldable pub cut : Bytes → ℕ → Bytes × Bytes × Bool
cut [] c = ([], [], false)
cut (b ∷ bs) c =
    let (before, after, found) = cut bs c in
    if b == c then ([], bs, true) else (b ∷ before, after, found)

-- strings.TrimPrefix.
unfoldable pub trim_prefix : Bytes → Bytes → Bytes
unfolding has_prefix
trim_prefix s p = if has_prefix s p then drop (length p) s else s
