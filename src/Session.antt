-- ===== src/Session.antt =====
-- internal/api/session.go: the signed cookie that holds who has logged in. A text is the list of its
-- bytes. HMAC, base64 and JSON are parameters.
pub mod Signed
mod Tests
use cupel.Base.{
  ℕ, ◌+◌, ◌*◌, ◌/◌, ◌^◌, Bool, true, false, ◌||◌, Option, none, some, List, [], ◌∷◌, ◌++◌, String,
  if◌then◌else◌, ltb, ◌==◌, length, codes_eq, equal_fold,
}

pub record Session : Type 0 where
  pub username : String
  pub groups : List String
  pub expires : ℕ

-- The calls of libraries; the keyed hash takes the key and the text.
pub record Library : Type 0 where
  pub hmac_sha256 : List ℕ → List ℕ → List ℕ
  pub encode_base64 : List ℕ → List ℕ
  pub decode_base64 : List ℕ → Option (List ℕ)
  pub marshal : Session → Option (List ℕ)
  pub unmarshal : List ℕ → Option Session

pub record SessionCodec : Type 0 where
  pub key : List ℕ
  pub ttl : ℕ

pub data Rejected : Type 0 where
  malformed : Rejected
  malformed_payload : Rejected
  malformed_signature : Rejected
  forged : Rejected
  malformed_contents : Rejected
  expired : Rejected

pub data Verified : Type 0 where
  accepted : Session → Verified
  rejected : Rejected → Verified

-- Seconds of a time in nanoseconds.
abbrev pub unix : ℕ → ℕ
unix now = now / 10 ^ 9

-- `newSessionCodec`; a duration of 0 or less is left at 0.
unfoldable pub new_session_codec : List ℕ → ℕ → Option SessionCodec
new_session_codec key ttl =
    if ltb (length key) 32
    then none
    else some (record { key = key; ttl = if ltb 0 ttl then ttl else 12 * 3600 * 10 ^ 9 })

unfoldable pub sign : Library → SessionCodec → List ℕ → List ℕ
sign lib c payload =
    lib.encode_base64 payload ++ b'.' ∷ lib.encode_base64 (lib.hmac_sha256 c.key payload)

with_head : ℕ → Option (List ℕ × List ℕ) → Option (List ℕ × List ℕ)
with_head c none = none
with_head c (some (before, after)) = some (c ∷ before, after)

-- `strings.Cut(_, ".")`
unfoldable pub cut : List ℕ → Option (List ℕ × List ℕ)
unfolding with_head
cut [] = none
cut (c ∷ cs) = let rest = cut cs in if c == b'.' then some ([], cs) else with_head c rest

unfoldable pub on_contents : ℕ → Option Session → Verified
on_contents now none = rejected malformed_contents
on_contents now (some s) = if ltb s.expires (unix now) then rejected expired else accepted s

unfoldable pub on_signature : Library → SessionCodec → ℕ → List ℕ → Option (List ℕ) → Verified
unfolding on_contents
on_signature lib c now payload none = rejected malformed_signature
on_signature lib c now payload (some want) =
    if codes_eq (lib.hmac_sha256 c.key payload) want
    then on_contents now (lib.unmarshal payload)
    else rejected forged

unfoldable pub on_payload : Library → SessionCodec → ℕ → List ℕ → Option (List ℕ) → Verified
unfolding on_signature
on_payload lib c now signature none = rejected malformed_payload
on_payload lib c now signature (some payload) =
    on_signature lib c now payload (lib.decode_base64 signature)

unfoldable pub on_cut : Library → SessionCodec → ℕ → Option (List ℕ × List ℕ) → Verified
unfolding on_payload
on_cut lib c now none = rejected malformed
on_cut lib c now (some (body, signature)) = on_payload lib c now signature (lib.decode_base64 body)

unfoldable pub verify_session : Library → SessionCodec → ℕ → List ℕ → Verified
unfolding on_cut cut
verify_session lib c now value = on_cut lib c now (cut value)

-- Whether the request came over TLS, and the header in which a proxy says so.
pub record Transport : Type 0 where
  pub tls : Bool
  pub forwarded_proto : String

unfoldable pub is_tls : Transport → Bool
is_tls r = r.tls || equal_fold r.forwarded_proto "https"

pub record Cookie : Type 0 where
  pub value : List ℕ
  pub http_only : Bool
  pub secure : Bool
  pub expires : ℕ

cookie_of : Library → SessionCodec → Transport → ℕ → Option (List ℕ) → Option Cookie
cookie_of lib c r now none = none
cookie_of lib c r now (some payload) = some (record {
  value = sign lib c payload;
  http_only = true;
  secure = is_tls r;
  expires = now + c.ttl;
})

-- `issue`
unfoldable pub issue : Library → SessionCodec → Transport → ℕ → String → List String → Option Cookie
unfolding cookie_of
issue lib c r now username groups =
    cookie_of lib c r now
      (lib.marshal (record { username = username; groups = groups; expires = unix (now + c.ttl) }))
