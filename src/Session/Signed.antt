-- ===== src/Session/Signed.antt =====
-- What a cookie of internal/api/session.go that is accepted says, and that one that is issued is accepted.
use cupel.Base.{
  ℕ, ◌+◌, ◌≤◌, ◌≡◌, ◌≢◌, ◌↔◌, refl, sym, ap, subst, false, Option, none, some, List, [], ◌∷◌, ◌++◌,
  String, ltb, ◌==◌, codes_eq, codes_eq_sound, codes_eq_refl, arith, Bool-cases, inl, inr, All,
}
use cupel.Session.{
  Session, Library, SessionCodec, accepted, unix, sign, cut, with_head, on_contents, on_signature,
  on_payload, on_cut, verify_session, Transport, Cookie, cookie_of, issue,
}

-- The parts of a cookie whose signature is that of its payload, and which has not expired.
pub record IsSigned (lib : Library) (c : SessionCodec) (now : ℕ) (value : List ℕ) (s : Session)
    : Type 0 where
  pub body : List ℕ
  pub signature : List ℕ
  pub payload : List ℕ
  pub parts : cut value ≡ some (body, signature)
  pub decoded : lib.decode_base64 body ≡ some payload
  pub signed : lib.decode_base64 signature ≡ some (lib.hmac_sha256 c.key payload)
  pub contents : lib.unmarshal payload ≡ some s
  pub current : unix now ≤ s.expires

module _ (lib : Library) (c : SessionCodec) (now : ℕ) where
  IsSigned-accepted :
      (value : List ℕ) (s : Session)
      → IsSigned lib c now value s
      → verify_session lib c now value ≡ accepted s
  unfolding verify_session on_cut on_payload on_signature on_contents
  IsSigned-accepted value s h =
      let late : ltb s.expires (unix now) ≡ false = ground (arith, h.current) in
      rw
        (
          h.parts,
          h.decoded,
          h.signed,
          codes_eq_refl (lib.hmac_sha256 c.key h.payload),
          h.contents,
          late,
        )
        refl

  contents_sound :
      (found : Option Session) (s : Session)
      → on_contents now found ≡ accepted s
      → (found ≡ some s) × (unix now ≤ s.expires)
  unfolding on_contents
  contents_sound none s h = cc
  contents_sound (some t) s h = elim (Bool-cases (ltb t.expires (unix now))) [
    | inl late ↦ cc (rw late at h)
    | inr current ↦
        let same : t ≡ s = cc (rw current at h) in
        (
          ap (λ (x : Session). some x) same,
          subst (λ (x : Session). unix now ≤ x.expires) same (ground arith),
        )
  ]

  signature_sound :
      (payload : List ℕ) (want : Option (List ℕ)) (s : Session)
      → on_signature lib c now payload want ≡ accepted s
      → (want ≡ some (lib.hmac_sha256 c.key payload))
        × (lib.unmarshal payload ≡ some s)
        × (unix now ≤ s.expires)
  unfolding on_signature
  signature_sound payload none s h = cc
  signature_sound payload (some want) s h =
      elim (Bool-cases (codes_eq (lib.hmac_sha256 c.key payload) want)) [
        | inr forgery ↦ cc (rw forgery at h)
        | inl genuine ↦
            let same = codes_eq_sound (lib.hmac_sha256 c.key payload) want genuine in
            let (contents, current) = contents_sound (lib.unmarshal payload) s (rw genuine at h) in
            (ap (λ (x : List ℕ). some x) (sym same), contents, current)
      ]

  cut_sound :
      (value : List ℕ) (parts : Option (List ℕ × List ℕ)) (s : Session)
      → cut value ≡ parts
      → on_cut lib c now parts ≡ accepted s
      → IsSigned lib c now value s
  unfolding on_cut on_payload
  cut_sound value none s e h = cc
  cut_sound value (some (body, signature)) s e h = payload_sound (lib.decode_base64 body) refl h
    where
      payload_sound :
          (payload : Option (List ℕ))
          → lib.decode_base64 body ≡ payload
          → on_payload lib c now signature payload ≡ accepted s
          → IsSigned lib c now value s
      payload_sound none d g = cc
      payload_sound (some payload) d g =
          let (signed, contents, current) =
            signature_sound payload (lib.decode_base64 signature) s g in
          record {
            body = body;
            signature = signature;
            payload = payload;
            parts = e;
            decoded = d;
            signed = signed;
            contents = contents;
            current = current;
          }

-- A cookie is accepted exactly when it has two parts, the second of which decodes to the keyed hash of
-- what the first decodes to, that is the session, and the session has not expired.
pub verify_session-iff-IsSigned :
    (lib : Library) (c : SessionCodec) (now : ℕ) (value : List ℕ) (s : Session)
    → (verify_session lib c now value ≡ accepted s) ↔ IsSigned lib c now value s
unfolding verify_session
verify_session-iff-IsSigned lib c now value s = (
  λ h. cut_sound lib c now value (cut value) s refl h,
  λ h. IsSigned-accepted lib c now value s h,
)

-- What the libraries document: base64 and JSON decode what they encode, and base64 has no dots.
pub record IsLossless (lib : Library) : Type 0 where
  pub base64 : (x : List ℕ) → lib.decode_base64 (lib.encode_base64 x) ≡ some x
  pub dotless : (x : List ℕ) → All (λ d. d ≢ b'.') (lib.encode_base64 x)
  pub json : (s : Session) (text : List ℕ) → lib.marshal s ≡ some text → lib.unmarshal text ≡ some s

cut-append : (xs ys : List ℕ) → All (λ d. d ≢ b'.') xs → cut (xs ++ b'.' ∷ ys) ≡ some (xs, ys)
unfolding cut with_head
cut-append [] ys h = refl
cut-append (x ∷ xs) ys h =
    let other : (x == b'.') ≡ false = ground (arith, h.0) in rw (other, cut-append xs ys h.1) refl

module _ (lib : Library) (lossless : IsLossless lib) (c : SessionCodec) where
  sign-IsSigned :
      (later : ℕ) (payload : List ℕ) (s : Session)
      → lib.unmarshal payload ≡ some s
      → unix later ≤ s.expires
      → IsSigned lib c later (sign lib c payload) s
  unfolding sign
  sign-IsSigned later payload s contents current = record {
    body = lib.encode_base64 payload;
    signature = lib.encode_base64 (lib.hmac_sha256 c.key payload);
    payload = payload;
    parts = cut-append (lib.encode_base64 payload) _ (lossless.dotless payload);
    decoded = lossless.base64 payload;
    signed = lossless.base64 (lib.hmac_sha256 c.key payload);
    contents = contents;
    current = current;
  }

  cookie_sound :
      (r : Transport) (now : ℕ) (text : Option (List ℕ)) (cookie : Cookie)
      → cookie_of lib c r now text ≡ some cookie
      → (payload : List ℕ) × (text ≡ some payload) × (cookie.value ≡ sign lib c payload)
  unfolding cookie_of
  cookie_sound r now none cookie h = cc
  cookie_sound r now (some payload) cookie h = (payload, refl, cc)

  -- A cookie that is issued is accepted, with the user and the groups that it was issued for, up to the
  -- second in which it expires. Base64 and JSON decode what they encode, and base64 has no dots.
  pub issue-verify_session :
      (r : Transport) (now later : ℕ) (username : String) (groups : List String) (cookie : Cookie)
      → issue lib c r now username groups ≡ some cookie
      → unix later ≤ unix (now + c.ttl)
      → verify_session lib c later cookie.value
        ≡ accepted (record { username = username; groups = groups; expires = unix (now + c.ttl) })
  unfolding issue
  issue-verify_session r now later username groups cookie issued current =
      let s : Session = record {
        username = username;
        groups = groups;
        expires = unix (now + c.ttl);
      } in
      let (payload, text, value) = cookie_sound r now (lib.marshal s) cookie issued in
      (verify_session-iff-IsSigned lib c later cookie.value s).1 (
        subst (λ (v : List ℕ). IsSigned lib c later v s) (sym value)
          (sign-IsSigned later payload s (lossless.json s payload text) current))
