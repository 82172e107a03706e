-- ===== src/CollectApi/Metrics/Labels.antt =====
-- internal/collectapi/kafka_metrics.go: an escaped label is one line, ends at its quote, and can be
-- read back.
use anaysitics_service.Base.{
  contains, ℕ_eq, ℕ, Bool, true, false, nat_eq, [], ◌∷◌, ◌++◌, ◌≡◌, refl, ap, if◌then◌else◌, ◌⊎◌,
  inl, inr, arith,
}
use anaysitics_service.Base.Text.{Text}
use anaysitics_service.CollectApi.Metrics.{
  replace_all, backslash, newline, quote, escape_prometheus_label,
}

-- A reader of the text format, which has seen a backslash or not, up to the closing quote: the value
-- and what follows.
unfoldable pub read_label : Bool → Text → Text × Text
read_label escaped [] = ([], [])
read_label true (c ∷ s) =
    let (value, rest) = read_label false s in ((if nat_eq c b'n' then newline else c) ∷ value, rest)
read_label false (c ∷ s) =
    let (value, rest) = read_label false s in
    let escaped = read_label true s in
    if nat_eq c backslash then escaped else if nat_eq c quote then ([], s) else (c ∷ value, rest)

-- The characters that are escaped.
abbrev IsPlain : ℕ → Type 0
IsPlain c = (nat_eq c backslash ≡ false) × (nat_eq c newline ≡ false) × (nat_eq c quote ≡ false)

character-cases : (c : ℕ) → (c ≡ backslash) ⊎ ((c ≡ newline) ⊎ ((c ≡ quote) ⊎ IsPlain c))
character-cases c = ground arith

-- The rest of a text is escaped on its own.
escape_plain :
    (c : ℕ) (s : Text) → IsPlain c → escape_prometheus_label (c ∷ s) ≡ c ∷ escape_prometheus_label s
unfolding escape_prometheus_label replace_all
escape_plain c s (a, b, d) = rw (a, replace_all) (rw (b, replace_all) (rw (d, replace_all) refl))

abbrev before : ℕ → Text × Text → Text × Text
before c (value, rest) = (c ∷ value, rest)

-- The value written between quotes is read back, and the reader stops at the closing quote: no
-- value, whatever characters it has, ends its label early or changes what follows it.
pub read_label-escape :
    (s rest : Text) → read_label false (escape_prometheus_label s ++ (quote ∷ rest)) ≡ (s, rest)
unfolding read_label escape_prometheus_label replace_all
read_label-escape [] rest = refl
read_label-escape (c ∷ s) rest = elim (character-cases c) [
  | inl e ↦ rw e (ap (before backslash) (read_label-escape s rest))
  | inr (inl e) ↦ rw e (ap (before newline) (read_label-escape s rest))
  | inr (inr (inl e)) ↦ rw e (ap (before quote) (read_label-escape s rest))
  | inr (inr (inr plain)) ↦ rw (escape_plain c s plain) (
      rw (plain.0, read_label)
        (rw (plain.2, read_label) (ap (before c) (read_label-escape s rest))))
]

-- An escaped value has no line break, so a sample stays one line of the text.
pub escape_prometheus_label_one_line :
    (s : Text) → contains (escape_prometheus_label s) newline ≡ false
unfolding escape_prometheus_label replace_all contains
escape_prometheus_label_one_line [] = refl
escape_prometheus_label_one_line (c ∷ s) = elim (character-cases c) [
  | inl e ↦ rw e (escape_prometheus_label_one_line s)
  | inr (inl e) ↦ rw e (escape_prometheus_label_one_line s)
  | inr (inr (inl e)) ↦ rw e (escape_prometheus_label_one_line s)
  | inr (inr (inr plain)) ↦
      rw (escape_plain c s plain) (rw (plain.1, contains) (escape_prometheus_label_one_line s))
]
