-- ===== src/Installations/Token/Laws.antt =====
-- Printing and parsing an opaque token.
use native.Mathlib.Numerals.{add-one}
use pos_cloud.Common.{
  ℕ, suc, ◌+◌, ◌≡◌, refl, ap, ◌∙◌, ◌≢◌, ◌↔◌, inl, inr, [], ◌∷◌, none, some, arith, length, take,
  drop, length-append, Option-cases,
}
use pos_cloud.Common.Text.{Text, index_of}
use pos_cloud.Common.Text.Index.{
  index_of-append, IsSplit, index_of-IsSplit, take-append, drop-append,
}
use pos_cloud.Installations.Token.{OpaqueToken, format_opaque_token, parse_opaque_token}

-- An id that a token can carry: not empty, and without a dot.
abbrev pub IsTokenId : Text → Type 0
IsTokenId id = (id ≢ []) × (index_of b'.' id ≡ none)

-- A token that is printed from an id without a dot and from a secret, neither of them empty, is
-- parsed into these.
pub parse-format :
    (id secret : Text)
    → IsTokenId id
    → secret ≢ []
    → parse_opaque_token (format_opaque_token id secret)
      ≡ some (record { id = id; secret = secret })
unfolding parse_opaque_token format_opaque_token
parse-format [] secret h k = absurd (h.0 refl)
parse-format (c ∷ id) [] h k = absurd (k refl)
parse-format (c ∷ id) (d ∷ secret) h k =
    rw (index_of-append b'.' (c ∷ id) (d ∷ secret) h.1, parse_opaque_token)
      (ground (
        arith,
        take-append id (b'.' ∷ d ∷ secret),
        drop-append id (d ∷ secret) b'.',
        length-append id (b'.' ∷ d ∷ secret),
      ))

split_parts :
    (raw : Text) (i : ℕ)
    → IsSplit b'.' raw i
    → i ≢ 0
    → i + 1 ≢ length raw
    → (take i raw ≢ []) × (drop (suc i) raw ≢ [])
split_parts raw i s h k = (
  λ e. h (omega (arith, s.length_before, ap length e)),
  λ e. k (
      omega (
        arith,
        s.length_before,
        ap length s.joined,
        length-append (take i raw) (b'.' ∷ drop (suc i) raw),
        ap length e,
      )),
)

-- A place that is neither the first nor the last.
parsed_parts :
    (raw : Text) (i : ℕ) (p : OpaqueToken)
    → index_of b'.' raw ≡ some i
    → parse_opaque_token raw ≡ some p
    → (i ≢ 0) × (i + 1 ≢ length raw) × (p.id ≡ take i raw) × (p.secret ≡ drop (suc i) raw)
unfolding parse_opaque_token
parsed_parts raw i p found h = ground (arith, add-one i)

-- What is parsed is the text that was given, split at its first dot, with no part empty.
pub parse_sound :
    (raw : Text) (p : OpaqueToken)
    → parse_opaque_token raw ≡ some p
    → (raw ≡ format_opaque_token p.id p.secret) × IsTokenId p.id × (p.secret ≢ [])
unfolding parse_opaque_token format_opaque_token
parse_sound raw p h = elim (Option-cases (index_of b'.' raw)) [
  | inl missing ↦ absurd (ground (arith, missing))
  | inr (i, found) ↦
      let s = index_of-IsSplit b'.' raw i found in
      let (h0, h1, same_id, same_secret) = parsed_parts raw i p found h in
      let (some_id, some_secret) = split_parts raw i s h0 h1 in
      rw (same_id, same_secret) (s.joined, (some_id, s.before), some_secret)
]

-- A text is parsed into an id and a secret exactly if it is the token printed from them, the id is
-- not empty and has no dot, and the secret is not empty.
pub parse_iff :
    (raw : Text) (p : OpaqueToken)
    → (parse_opaque_token raw ≡ some p)
      ↔ ((raw ≡ format_opaque_token p.id p.secret) × IsTokenId p.id × (p.secret ≢ []))
parse_iff raw p = (
  λ h. parse_sound raw p h,
  λ (e, h, k). ap parse_opaque_token e ∙ parse-format p.id p.secret h k,
)
