-- ===== src/Scan/Pattern.antt =====
-- `ParsedPattern` and `parsePattern` of src/core/bindings/native_memory.cc.
use better_ncm.Base.{
  ℕ, Bool, true, false, ◌&&◌, List, [], ◌∷◌, ◌++◌, ◌==◌, if◌then◌else◌, Outcome, ok, thrown,
}
use better_ncm.Hex.{is_space, stoi_hex_byte, NumberError}

-- `true` in the mask: the byte must match; `false`: a wildcard.
pub record ParsedPattern : Type 0 where
  pub bytes : List ℕ
  pub mask : List Bool

-- `while (iss >> token)`: the maximal runs of characters that are no space. The first argument is
-- the token that is being read.
pub tokens_from : List ℕ → List ℕ → List (List ℕ)
tokens_from [] [] = []
tokens_from (t ∷ ts) [] = (t ∷ ts) ∷ []
tokens_from [] (c ∷ cs) = tokens_from (if is_space c then [] else c ∷ []) cs
tokens_from (t ∷ ts) (c ∷ cs) =
    let ends = (t ∷ ts) ∷ tokens_from [] cs in
    let more = tokens_from ((t ∷ ts) ++ (c ∷ [])) cs in if is_space c then ends else more

pub is_wildcard : List ℕ → Bool
is_wildcard (a ∷ []) = a == b'?'
is_wildcard (a ∷ b ∷ []) = a == b'?' && b == b'?'
is_wildcard _ = false

-- The body of the loop: push one byte and one mask bit, or let the exception of `stoi` through.
pub push_token : ParsedPattern → List ℕ → Outcome NumberError ParsedPattern
unfolding is_wildcard
push_token p token =
    if is_wildcard token
    then ok (record { bytes = p.bytes ++ (0 ∷ []); mask = p.mask ++ (false ∷ []) })
    else elim (stoi_hex_byte token) [
      | ok b ↦ ok (record { bytes = p.bytes ++ (b ∷ []); mask = p.mask ++ (true ∷ []) })
      | thrown e ↦ thrown e
    ]

pub push_tokens : ParsedPattern → List (List ℕ) → Outcome NumberError ParsedPattern
push_tokens p [] = ok p
push_tokens p (token ∷ ts) = elim (push_token p token) [
  | ok q ↦ push_tokens q ts
  | thrown e ↦ thrown e
]

unfoldable pub parse_pattern : List ℕ → Outcome NumberError ParsedPattern
unfolding push_tokens push_token tokens_from
parse_pattern pattern = push_tokens (record { bytes = []; mask = [] }) (tokens_from [] pattern)
