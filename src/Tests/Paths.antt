-- ===== src/Tests/Paths.antt =====
-- Paths and texts.
use catena.Base.{
  ℕ, ◌<◌, ◌≤◌, ◌≡◌, refl, ◌≢◌, ◌↔◌, [], ◌∷◌, some, All, length, zero, suc, leb→le, ltb→lt,
}
use catena.Base.Text.{Text, txt, starts_with}
use catena.Status.{returns}
use catena.Utils.{subs, subs_loop, find_seq, split, split_loop, timeout}
use catena.ParamPath.{parse, fqoid}
use catena.ParamPath.Decimal.{stoul}
use catena.ParamPath.Syntax.{oid, idx, tokens}
use catena.ParamPath.Language.{IsToken, text_of, tokens_iff}
use catena.ParamPath.RoundTrip.{IsValid, parse-IsValid, parse-plain}
use catena.ParamPath.Walk.{pops, walk, parse-walk}
use catena.Tests.{level_path}

parse_levels : parse (txt "/levels/3") ≡ returns level_path
unfolding parse tokens stoul subs subs_loop find_seq starts_with
parse_levels = refl

level_path-IsValid : IsValid level_path
level_path-IsValid = (parse-IsValid (txt "/levels/3") level_path parse_levels).0

parse-plain_example : All (λ x. x ≢ b'~') (txt "/levels/3")
parse-plain_example = parse-plain (txt "/levels/3") level_path parse_levels

parse-walk_example : parse (fqoid (walk (pops ∷ []) level_path)) ≡ returns level_path
parse-walk_example = parse-walk (pops ∷ []) level_path level_path-IsValid

tokens_iff_example : (tokens (txt "/levels/3") ≡ some (oid (txt "levels") ∷ idx (txt "3") ∷ [])) ↔ (
    All IsToken (oid (txt "levels") ∷ idx (txt "3") ∷ [])
    × (text_of (oid (txt "levels") ∷ idx (txt "3") ∷ []) ≡ txt "/levels/3"))
tokens_iff_example = tokens_iff (txt "/levels/3") (oid (txt "levels") ∷ idx (txt "3") ∷ [])

split_short : length (split (txt "a~b") (b'~' ∷ [])) ≤ timeout
unfolding split split_loop find_seq starts_with
split_short = leb→le _ timeout refl

abbrev many : ℕ → Text
many zero = []
many (suc n) = b'~' ∷ many n

split_long : timeout < length (split (many 1001) (b'~' ∷ []))
unfolding split split_loop find_seq starts_with
split_long = ltb→lt timeout _ refl
