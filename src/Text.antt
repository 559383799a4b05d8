-- ===== src/Text.antt =====
-- Rust's `str` methods that the program calls, over the bytes of a text.
-- The separator is a parameter where the code passes one; every text the code splits this way is
-- UTF-8, where the bytes of an ASCII separator stand for nothing else.
use Prim.Native.Char.{code}
use remote_merge.Prelude.{
  String, ◌+◌, map, leb, ltb, ◌&&◌, ℕ, Bool, true, false, List, [], ◌∷◌, ◌++◌, Option, none, some,
  ◌==◌, nat_eq, if◌then◌else◌,
}

-- A text or a path, as its bytes.
abbrev pub Bytes : Type 0
Bytes = List ℕ

abbrev pub is_empty {ℓ} : {A : Type ℓ} → List A → Bool
is_empty [] = true
is_empty (_ ∷ _) = false

abbrev pub slash : ℕ
slash = b'/'

-- The first piece grows by one byte.
abbrev pub cons_head : ℕ → List Bytes → List Bytes
cons_head c [] = (c ∷ []) ∷ []
cons_head c (s ∷ ss) = (c ∷ s) ∷ ss

-- `text.split(sep)`: never empty.
unfoldable pub split : ℕ → Bytes → List Bytes
split sep [] = [] ∷ []
split sep (c ∷ cs) = let rest = split sep cs in if c == sep then [] ∷ rest else cons_head c rest

-- `pieces.join(sep)`
unfoldable pub join : ℕ → List Bytes → Bytes
join sep [] = []
join sep (p ∷ []) = p
join sep (p ∷ q ∷ ps) = p ++ (sep ∷ join sep (q ∷ ps))

abbrev pub cons_unless : ℕ → ℕ → Bytes → Bytes
cons_unless sep c [] = if c == sep then [] else c ∷ []
cons_unless sep c (d ∷ ds) = c ∷ d ∷ ds

-- `text.trim_end_matches(sep)`
unfoldable pub trim_end : ℕ → Bytes → Bytes
trim_end sep [] = []
trim_end sep (c ∷ cs) = cons_unless sep c (trim_end sep cs)

-- `text.starts_with(sep)`
abbrev pub starts_with : ℕ → Bytes → Bool
starts_with sep [] = false
starts_with sep (c ∷ _) = c == sep

-- `text.strip_prefix(base)`
unfoldable pub strip_prefix : Bytes → Bytes → Option Bytes
strip_prefix text [] = some text
strip_prefix [] (b ∷ bs) = none
strip_prefix (c ∷ cs) (b ∷ bs) = let rest = strip_prefix cs bs in if c == b then rest else none

-- `text.rsplit_once(sep)`
unfoldable pub rsplit_once : ℕ → Bytes → Option (Bytes × Bytes)
rsplit_once sep [] = none
rsplit_once sep (c ∷ cs) = elim (rsplit_once sep cs) [
  | some (before, after) ↦ some (c ∷ before, after)
  | none ↦ if c == sep then some ([], cs) else none
]

-- The bytes of an ASCII literal. `String` has its own `[]` and `∷`.
abbrev pub codes : String → Bytes
codes String.[] = []
codes (String.◌∷◌ c s) = code c ∷ codes s

unfoldable pub ascii_lower : ℕ → ℕ
ascii_lower c = if leb b'A' c && leb c b'Z' then c + 32 else c

-- `text.to_ascii_lowercase()`
abbrev pub to_ascii_lowercase : Bytes → Bytes
to_ascii_lowercase text = map ascii_lower text

-- `<[u8]>::cmp`: whether the first text is at most the second.
unfoldable pub at_most : Bytes → Bytes → Bool
at_most [] text = true
at_most (c ∷ cs) [] = false
at_most (c ∷ cs) (d ∷ ds) =
    let rest = at_most cs ds in if ltb c d then true else if c == d then rest else false
