-- ===== src/Session/Tests.antt =====
-- A session of internal/api/session.go for one user: the theorems applied, and tests by evaluation.
use cupel.Base.{
  ℕ, ◌+◌, ◌-◌, ◌≡◌, ◌≢◌, ◌↔◌, refl, sym, ap, Bool, true, false, ◌&&◌, Option, none, some, List, [],
  ◌∷◌, String, if◌then◌else◌, ◌==◌, str_eq, eq_iff, arith, Bool-cases, inl, inr, All, map, codes_eq,
  equal_fold,
}
use cupel.Session.{
  Session, Library, SessionCodec, accepted, rejected, forged, sign, cut, verify_session, Transport,
  Cookie, issue, is_tls,
}
use cupel.Session.Signed.{IsSigned, IsLossless, verify_session-iff-IsSigned, issue-verify_session}

abbrev alice : Session
alice = record { username = "alice"; groups = []; expires = 15 }

is_empty : List String → Bool
is_empty [] = true
is_empty (g ∷ gs) = false

empty_is : (gs : List String) → is_empty gs ≡ true → gs ≡ []
unfolding is_empty
empty_is [] h = refl
empty_is (g ∷ gs) h = cc

is_alice : Session → Bool
is_alice s = str_eq s.username "alice" && is_empty s.groups && s.expires == 15

alice_is : (s : Session) → is_alice s ≡ true → s ≡ alice
unfolding is_alice
alice_is s h = λ i. record { username = name i; groups = none_of i; expires = at_time i }
  where
    name : s.username ≡ "alice"
    name = ground (arith, h, eq_iff s.username "alice")

    none_of : s.groups ≡ []
    none_of = empty_is s.groups (ground (arith, h))

    at_time : s.expires ≡ 15
    at_time = ground (arith, h)

marshal_alice : Session → Option (List ℕ)
marshal_alice s = if is_alice s then some (7 ∷ []) else none

sum : List ℕ → ℕ
sum [] = 0
sum (c ∷ cs) = c + sum cs

-- Digits are shifted past the dot; the keyed hash is a sum.
abbrev toy : Library
toy = record {
  hmac_sha256 = λ key x. (sum key + sum x) ∷ [];
  encode_base64 = map (λ d. d + 47);
  decode_base64 = λ x. some (map (λ d. d - 47) x);
  marshal = marshal_alice;
  unmarshal = λ _. some alice;
}

shift_back : (x : List ℕ) → map (λ d. d - 47) (map (λ d. d + 47) x) ≡ x
shift_back [] = refl
shift_back (d ∷ ds) = let first : (d + 47) - 47 ≡ d = omega arith in rw (first, shift_back ds) refl

shift_dotless : (x : List ℕ) → All (λ d. d ≢ b'.') (map (λ d. d + 47) x)
shift_dotless [] = tt
shift_dotless (d ∷ ds) = (λ e. omega (arith, e), shift_dotless ds)

toy-IsLossless : IsLossless toy
unfolding marshal_alice
toy-IsLossless = record {
  base64 = λ x. rw (shift_back x) refl;
  dotless = shift_dotless;
  json = λ s text h. elim (Bool-cases (is_alice s)) [
    | inl same ↦ ap (λ (x : Session). some x) (sym (alice_is s same))
    | inr other ↦ cc (rw other at h)
  ];
}

abbrev codec : SessionCodec
codec = record { key = 1 ∷ 2 ∷ []; ttl = 10_000_000_000 }

abbrev plain : Transport
plain = record { tls = false; forwarded_proto = "http" }

abbrev cookie : Cookie
cookie = record {
  value = 54 ∷ b'.' ∷ 57 ∷ [];
  http_only = true;
  secure = false;
  expires = 15_000_000_000;
}

issued_test : issue toy codec plain 5_000_000_000 "alice" [] ≡ some cookie
unfolding issue sign sum marshal_alice is_alice is_empty is_tls equal_fold
issued_test = refl

forged_test : verify_session toy codec 5_000_000_000 (54 ∷ b'.' ∷ 58 ∷ []) ≡ rejected forged
unfolding verify_session cut sum codes_eq
forged_test = refl

issue-verify_session_example : verify_session toy codec 14_000_000_000 cookie.value ≡ accepted alice
issue-verify_session_example =
    issue-verify_session toy toy-IsLossless codec plain 5_000_000_000 14_000_000_000 "alice" []
      cookie issued_test (omega arith)

verify_session-iff-IsSigned_example :
    (verify_session toy codec 14_000_000_000 cookie.value ≡ accepted alice)
    ↔ IsSigned toy codec 14_000_000_000 cookie.value alice
verify_session-iff-IsSigned_example =
    verify_session-iff-IsSigned toy codec 14_000_000_000 cookie.value alice
