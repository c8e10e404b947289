-- ===== src/Rest/Bodies.antt =====
-- SocketReader.cpp: the body of a request against its header.
use mathlib.Core.List.{append-nil}
use catena.Base.{
  ℕ, ◌-◌, ◌≡◌, ◌<◌, ◌≢◌, ◌⊎◌, sym, ◌∙◌, true, [], ◌++◌, inl, inr, ltb, ◌==◌, length, length-append,
  ltb→lt, Bool-cases, arith,
}
use catena.Base.Text.{Text}
use catena.Status.{returns, ◌>>=◌, >>=-eq-returns, returns-injective}
use catena.Rest.{Heading}
use catena.Rest.Reader.{Delivery, received, timed_out, read_error, delivered, read_body}

-- `transfer_exactly`: a read that goes well gives the number of bytes that was asked for.
abbrev pub IsExact : (ℕ → Delivery) → Type 0
IsExact more = (n : ℕ) (s : Text) → more n ≡ received s → length s ≡ n

delivered-received : (d : Delivery) (s : Text) → delivered d ≡ returns s → d ≡ received s
unfolding delivered
delivered-received (received t) s h = ground arith
delivered-received timed_out s h = absurd (ground arith)
delivered-received read_error s h = absurd (ground arith)

module _ (more : ℕ → Delivery) (h : Heading) (rest body : Text)
    (e : read_body more h rest ≡ returns body) where
  no_body : h.content_length ≡ 0 → (body ≡ rest) × (length rest ≡ 0)
  unfolding read_body
  no_body none = ground arith

  typed_body : h.content_length ≢ 0 → h.has_content_type ≡ true
  unfolding read_body
  typed_body some = ground arith

  some_body :
      h.content_length ≢ 0
      → ((length rest < h.content_length)
          × ((delivered (more (h.content_length - length rest)) >>= λ s. returns (rest ++ s))
              ≡ returns body))
        ⊎ ((body ≡ rest) × (length rest ≡ h.content_length))
  unfolding read_body
  some_body some = elim (Bool-cases (ltb (length rest) h.content_length)) [
    | inl short ↦ inl (ltb→lt _ _ short, ground arith)
    | inr long ↦ inr (ground arith)
  ]

-- A body that `read` accepts has the length of its header, goes on from what came with the headers, and
-- is empty unless the header says that it is JSON.
pub read_body-returns :
    (more : ℕ → Delivery) (h : Heading) (rest body : Text)
    → IsExact more
    → read_body more h rest ≡ returns body
    → (length body ≡ h.content_length)
      × ((s : Text) × (body ≡ rest ++ s))
      × (0 < h.content_length → h.has_content_type ≡ true)
read_body-returns more h rest body exact e = elim (Bool-cases (h.content_length == 0)) [
  | inl none ↦
      let zero_length : h.content_length ≡ 0 = ground arith in
      let (same, empty) = no_body more h rest body e zero_length in
      (rw same (omega arith), ([], same ∙ sym (append-nil rest)), λ some. absurd (omega arith))
  | inr some ↦
      let nonzero : h.content_length ≢ 0 = ground arith in
      let typed = typed_body more h rest body e nonzero in
      elim (some_body more h rest body e nonzero) [
        | inr (same, full) ↦ (rw same full, ([], same ∙ sym (append-nil rest)), λ x. typed)
        | inl (short, continued) ↦
            let (s, read, joined) =
              >>=-eq-returns (delivered (more (h.content_length - length rest))) _ continued in
            let exact_length = exact _ s (delivered-received _ s read) in
            let whole : rest ++ s ≡ body = returns-injective joined in
            (
              rw (← whole) (omega (arith, length-append rest s, exact_length)),
              (s, sym whole),
              λ x. typed,
            )
      ]
]
