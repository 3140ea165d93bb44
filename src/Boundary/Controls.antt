-- ===== src/Boundary/Controls.antt =====
-- `ffi_slice`, `encode_controls` and `decode_controls`: the control messages after a payload.
use emane.Base.{
  ℕ, zero, suc, ◌≤◌, ◌≡◌, refl, sym, ap, ◌∙◌, List, [], ◌∷◌, ◌++◌, length, take, drop, ltb, ◌==◌,
  if◌then◌else◌, arith, length-append, take-append_length, drop-append_length,
}
use emane.Base.Bytes.{Bytes, be16, from_be16-be16}
use emane.Base.Bytes.Fields.{get_u16}
use emane.Ota.Manager.Send.{Buffer, null, bytes}
use emane.Boundary.{
  OwnedControlMessage, FfiControlMessage, Checked, valid, failed, ◌>>=◌, null_payload, bind-valid,
  guard-valid, valid-inj, too_many_controls, not_legacy, control_too_large, truncated, trailing,
}

abbrev pub u16_max : ℕ
u16_max = 65535

unfoldable pub ffi_slice : Buffer → Checked Bytes
ffi_slice (null n) = if n == 0 then valid [] else failed null_payload
ffi_slice (bytes b) = valid b

unfoldable pub encode_control : FfiControlMessage → Checked Bytes
encode_control c =
    if ltb u16_max c.msg_type
    then failed not_legacy
    else (ffi_slice c.payload >>= λ payload.
        if ltb u16_max (length payload)
        then failed control_too_large
        else valid (be16 c.msg_type ++ (be16 (length payload) ++ payload)))

unfoldable pub encode_each : List FfiControlMessage → Checked Bytes
encode_each [] = valid []
encode_each (c ∷ cs) =
    encode_control c >>= λ first. encode_each cs >>= λ rest. valid (first ++ rest)

unfoldable pub encode_controls : List FfiControlMessage → Checked Bytes
encode_controls cs =
    if ltb u16_max (length cs)
    then failed too_many_controls
    else (encode_each cs >>= λ entries. valid (be16 (length cs) ++ entries))

unfoldable pub decode_each : ℕ → Bytes → Checked (List OwnedControlMessage)
decode_each zero [] = valid []
decode_each zero (x ∷ xs) = failed trailing
decode_each (suc count) input =
    if ltb (length input) 4
    then failed truncated
    else (if ltb (length (drop 4 input)) (get_u16 input 2)
        then failed truncated
        else (decode_each count (drop (get_u16 input 2) (drop 4 input)) >>= λ controls. valid (
            record {
              message_type = get_u16 input 0;
              payload = take (get_u16 input 2) (drop 4 input);
            }
            ∷ controls)))

unfoldable pub decode_controls : Bytes → Checked (List OwnedControlMessage)
decode_controls input =
    if ltb (length input) 2 then failed truncated else decode_each (get_u16 input 0) (drop 2 input)

-- What the other side is to hold of a control message: its bytes, copied.
abbrev pub payload_bytes : Buffer → Bytes
payload_bytes (null n) = []
payload_bytes (bytes b) = b

unfoldable pub owned : List FfiControlMessage → List OwnedControlMessage
owned [] = []
owned (c ∷ cs) = record { message_type = c.msg_type; payload = payload_bytes c.payload } ∷ owned cs

decode_each-entry :
    (kind : ℕ) (payload rest : Bytes) (count : ℕ)
    → kind ≤ u16_max
    → length payload ≤ u16_max
    → decode_each (suc count) ((be16 kind ++ (be16 (length payload) ++ payload)) ++ rest) ≡ (
        decode_each count rest >>= λ controls.
        valid (record { message_type = kind; payload = payload } ∷ controls))
unfolding decode_each be16 get_u16
decode_each-entry kind payload rest count h k = ground (
  arith,
  from_be16-be16 kind (omega arith),
  from_be16-be16 (length payload) (omega arith),
  length-append payload rest,
  take-append_length (length payload) payload rest refl,
  drop-append_length (length payload) payload rest refl,
)

abbrev entry_bytes : FfiControlMessage → Bytes
entry_bytes c =
    be16 c.msg_type ++ (be16 (length (payload_bytes c.payload)) ++ payload_bytes c.payload)

pub ffi_slice-valid : (b : Buffer) (s : Bytes) → ffi_slice b ≡ valid s → s ≡ payload_bytes b
unfolding ffi_slice
ffi_slice-valid (null n) s e = ground arith
ffi_slice-valid (bytes b) s e = cc

-- A control message that is encoded is narrow enough, and this is what is written.
encode_control-valid :
    (c : FfiControlMessage) (entry : Bytes)
    → encode_control c ≡ valid entry
    → (c.msg_type ≤ u16_max)
      × (length (payload_bytes c.payload) ≤ u16_max)
      × (entry ≡ entry_bytes c)
unfolding encode_control
encode_control-valid c entry e =
    let (narrow, e1) = guard-valid (ltb u16_max c.msg_type) _ e in
    let (payload, p, e2) = bind-valid (ffi_slice c.payload) _ e1 in
    let (short, e3) = guard-valid (ltb u16_max (length payload)) _ e2 in
    ground (arith, ffi_slice-valid c.payload payload p, valid-inj e3)

encode_each-cases :
    (c : FfiControlMessage) (cs : List FfiControlMessage) (entries : Bytes)
    → encode_each (c ∷ cs) ≡ valid entries
    → (first : Bytes) × (rest : Bytes) × (encode_control c ≡ valid first)
      × (encode_each cs ≡ valid rest)
      × (entries ≡ first ++ rest)
unfolding encode_each
encode_each-cases c cs entries e =
    let (first, f, e1) = bind-valid (encode_control c) _ e in
    let (rest, r, e2) = bind-valid (encode_each cs) _ e1 in (first, rest, f, r, sym (valid-inj e2))

decode_each-encode_each :
    (cs : List FfiControlMessage) (entries : Bytes)
    → encode_each cs ≡ valid entries
    → decode_each (length cs) entries ≡ valid (owned cs)
unfolding encode_each decode_each owned
decode_each-encode_each [] entries e = ground arith
decode_each-encode_each (c ∷ cs) entries e =
    let (first, rest, f, r, split) = encode_each-cases c cs entries e in
    let (narrow, short, shape) = encode_control-valid c first f in
    let entry : decode_each (suc (length cs)) (entry_bytes c ++ rest) ≡ valid (owned (c ∷ cs)) =
      decode_each-entry c.msg_type (payload_bytes c.payload) rest (length cs) narrow short
      ∙ ap
          (λ controls. controls >>= λ more.
            valid (record { message_type = c.msg_type; payload = payload_bytes c.payload } ∷ more))
          (decode_each-encode_each cs rest r) in
    ap (decode_each (suc (length cs))) (split ∙ ap (λ x. x ++ rest) shape) ∙ entry

decode_controls-count :
    (count : ℕ) (entries : Bytes)
    → count ≤ u16_max
    → decode_controls (be16 count ++ entries) ≡ decode_each count entries
unfolding decode_controls be16 get_u16
decode_controls-count count entries h = ground (arith, from_be16-be16 count (omega arith))

-- What `encode_controls` writes, `decode_controls` reads.
pub decode_controls-encode_controls :
    (cs : List FfiControlMessage) (encoded : Bytes)
    → encode_controls cs ≡ valid encoded
    → decode_controls encoded ≡ valid (owned cs)
unfolding encode_controls
decode_controls-encode_controls cs encoded e =
    let (few, e1) = guard-valid (ltb u16_max (length cs)) _ e in
    let (entries, each, e2) = bind-valid (encode_each cs) _ e1 in
    let read : decode_controls encoded ≡ decode_each (length cs) entries =
      ap decode_controls (sym (valid-inj e2))
      ∙ decode_controls-count (length cs) entries (ground arith) in
    read ∙ decode_each-encode_each cs entries each
