-- ===== src/D3/Handshake/Wire.antt =====
-- The wire form of the handshake messages: fixed sizes and round trips.
use otap_signup_validator.Common.{
  ℕ, ◌+◌, ◌≡◌, ◌∙◌, inl, arith, List, length, replicate, length-replicate, slice, copy_from_slice,
  length-copy_from_slice, slice-copy_from_slice_self, slice-copy_from_slice_apart, IsArray, ok,
}
use otap_signup_validator.D3.Keys.{pubkey_len, nonce_len, sig_len}
use otap_signup_validator.D3.Handshake.{
  HsMsg1, HsMsg2, HsMsg3, msg1_len, msg2_len, msg3_len, encode_msg1, decode_msg1, encode_msg2,
  decode_msg2, encode_msg3, decode_msg3,
}

-- The fields are arrays of their sizes.
pub record IsMsg1 (m : HsMsg1) : Type 0 where
  pub client_pk : IsArray pubkey_len m.client_pk
  pub nonce_i : IsArray nonce_len m.nonce_i

pub record IsMsg2 (m : HsMsg2) : Type 0 where
  pub server_pk : IsArray pubkey_len m.server_pk
  pub nonce_r : IsArray nonce_len m.nonce_r
  pub sig_r : IsArray sig_len m.sig_r

pub record IsMsg3 (m : HsMsg3) : Type 0 where
  pub client_pk : IsArray pubkey_len m.client_pk
  pub sig_i : IsArray sig_len m.sig_i

-- Two fields written one after the other into a buffer of zeros read back.
two_fields :
    (a b : List ℕ) (n total : ℕ)
    → length a ≡ n
    → n + length b ≡ total
    → let buf = copy_from_slice n b (copy_from_slice 0 a (replicate total 0)) in
      (slice 0 n buf ≡ a) × (slice n total buf ≡ b) × (length buf ≡ total)
two_fields a b n total ea eb =
    let zeros : List ℕ = replicate total 0 in
    let first = copy_from_slice 0 a zeros in
    let size : length zeros ≡ total = length-replicate {A = ℕ} total 0 in
    let size₁ : length first ≡ total = length-copy_from_slice 0 a zeros ∙ size in
    (
      slice-copy_from_slice_apart 0 n n b first (inl (omega arith, omega arith))
          ∙ slice-copy_from_slice_self 0 n a zeros (omega arith) (omega arith),
      slice-copy_from_slice_self n total b first (omega arith) (omega arith),
      length-copy_from_slice n b first ∙ size₁,
    )

pub decode-encode_msg1 :
    (m : HsMsg1)
    → IsMsg1 m
    → (decode_msg1 (encode_msg1 m) ≡ ok m) × (length (encode_msg1 m) ≡ msg1_len)
unfolding decode_msg1 encode_msg1
decode-encode_msg1 m h =
    let (a, b, size) =
      two_fields m.client_pk m.nonce_i pubkey_len msg1_len h.client_pk.size
        (omega (arith, h.nonce_i.size)) in
    (rw (a, b), size)

pub decode-encode_msg2 :
    (m : HsMsg2)
    → IsMsg2 m
    → (decode_msg2 (encode_msg2 m) ≡ ok m) × (length (encode_msg2 m) ≡ msg2_len)
unfolding decode_msg2 encode_msg2
decode-encode_msg2 m h =
    let zeros : List ℕ = replicate msg2_len 0 in
    let first = copy_from_slice 0 m.server_pk zeros in
    let second = copy_from_slice pubkey_len m.nonce_r first in
    let size : length zeros ≡ msg2_len = length-replicate {A = ℕ} msg2_len 0 in
    let size₁ : length first ≡ msg2_len = length-copy_from_slice 0 m.server_pk zeros ∙ size in
    let size₂ : length second ≡ msg2_len =
      length-copy_from_slice pubkey_len m.nonce_r first ∙ size₁ in
    let key =
      slice-copy_from_slice_apart 0 pubkey_len (pubkey_len + nonce_len) m.sig_r second
        (inl (omega arith, omega arith))
      ∙ slice-copy_from_slice_apart 0 pubkey_len pubkey_len m.nonce_r first
          (inl (omega arith, omega arith))
      ∙ slice-copy_from_slice_self 0 pubkey_len m.server_pk zeros (omega (arith, h.server_pk.size))
          (omega arith) in
    let nonce =
      slice-copy_from_slice_apart pubkey_len (pubkey_len + nonce_len) (pubkey_len + nonce_len)
        m.sig_r second (inl (omega arith, omega arith))
      ∙ slice-copy_from_slice_self pubkey_len (pubkey_len + nonce_len) m.nonce_r first
          (omega (arith, h.nonce_r.size)) (omega arith) in
    let signature =
      slice-copy_from_slice_self (pubkey_len + nonce_len) msg2_len m.sig_r second
        (omega (arith, h.sig_r.size)) (omega arith) in
    (
      rw (key, nonce, signature),
      length-copy_from_slice (pubkey_len + nonce_len) m.sig_r second ∙ size₂,
    )

pub decode-encode_msg3 :
    (m : HsMsg3)
    → IsMsg3 m
    → (decode_msg3 (encode_msg3 m) ≡ ok m) × (length (encode_msg3 m) ≡ msg3_len)
unfolding decode_msg3 encode_msg3
decode-encode_msg3 m h =
    let (a, b, size) =
      two_fields m.client_pk m.sig_i pubkey_len msg3_len h.client_pk.size
        (omega (arith, h.sig_i.size)) in
    (rw (a, b), size)

-- Each message of the handshake, encoded, has its fixed size, and decodes to itself.
pub decode-encode_messages :
    (m₁ : HsMsg1) (m₂ : HsMsg2) (m₃ : HsMsg3)
    → IsMsg1 m₁
    → IsMsg2 m₂
    → IsMsg3 m₃
    → ((decode_msg1 (encode_msg1 m₁) ≡ ok m₁) × (length (encode_msg1 m₁) ≡ msg1_len))
      × ((decode_msg2 (encode_msg2 m₂) ≡ ok m₂) × (length (encode_msg2 m₂) ≡ msg2_len))
      × ((decode_msg3 (encode_msg3 m₃) ≡ ok m₃) × (length (encode_msg3 m₃) ≡ msg3_len))
decode-encode_messages m₁ m₂ m₃ h₁ h₂ h₃ =
    (decode-encode_msg1 m₁ h₁, decode-encode_msg2 m₂ h₂, decode-encode_msg3 m₃ h₃)
