-- ===== src/ParamPath/Errors.antt =====
-- What the constructor of a path throws.
use catena.Base.{◌≡◌, ◌⊎◌, inl, inr, List, [], ◌∷◌, Option-cases, arith}
use catena.Base.Text.{Text}
use catena.Status.{throws, Exception, with_status, std_exception, invalid_argument}
use catena.ParamPath.Syntax.{Token, oid, idx, tokens}
use catena.ParamPath.{segment, segments_of, parse}

segment-throws : (t : Token) (e : Exception) → segment t ≡ throws e → e ≡ std_exception
unfolding segment
segment-throws (oid text) e h = ground arith
segment-throws (idx text) e h = ground arith
segment-throws Token.end e h = ground arith

segments_of-throws :
    (ts : List Token) (e : Exception) → segments_of ts ≡ throws e → e ≡ std_exception
unfolding segments_of
segments_of-throws [] e h = ground arith
segments_of-throws (t ∷ ts) e h = ground (arith, segment-throws t e, segments_of-throws ts e)

pub parse-throws :
    (s : Text) (e : Exception)
    → parse s ≡ throws e
    → (e ≡ with_status invalid_argument) ⊎ (e ≡ std_exception)
unfolding parse
parse-throws s e h = elim (Option-cases (tokens s)) [
  | inl missing ↦ inl (ground arith)
  | inr (ts, found) ↦ inr (ground (arith, segments_of-throws ts e))
]
