-- ===== src/Api/Pattern.antt =====
-- `AntennaPattern` and the antennas that have one. The bits of 0.0 are 0.
use emane.Base.{
  ℕ, ◌<◌, ◌≡◌, refl, ◌∙◌, Bool, true, Option, none, some, [], ◌∷◌, ◌++◌, is_some, ◌==◌,
  if◌then◌else◌, length, arith,
}
use emane.Base.Bytes.{Bytes, be16, be32}
use emane.Base.Bytes.Fields.{u64_mod, be64, head16-be16, head64-be64}
use emane.Api.{Floats}
use emane.Api.Properties.{TxAntennaProfile, TxAntennaProfileFits, encode_tx_antenna_profile}
use emane.Api.Cursor.{Reader, ◌>>=◌, read_u8, read_u16, read_u64}

pub data AntennaPattern : Type 0 where
  default : AntennaPattern
  ideal_omni : ℕ → AntennaPattern
  profile : TxAntennaProfile → AntennaPattern

pub record MimoTxAntenna : Type 0 where
  pub frequency_group_index : ℕ
  pub antenna_index : ℕ
  pub bandwidth_hz : ℕ
  pub spectral_mask_index : ℕ
  pub pattern : AntennaPattern

unfoldable pub fields_bytes : ℕ → ℕ → ℕ → ℕ → ℕ → Bytes
fields_bytes kind gain profile_id azimuth elevation =
    kind ∷ (be64 gain ++ (be16 profile_id ++ (be64 azimuth ++ be64 elevation)))

abbrev pub pattern_bytes : AntennaPattern → Bytes
pattern_bytes default = fields_bytes 0 0 0 0 0
pattern_bytes (ideal_omni gain) = fields_bytes 1 gain 0 0 0
pattern_bytes (profile p) = fields_bytes 2 0 p.profile_id p.azimuth_degrees p.elevation_degrees

unfoldable pub is_good_pattern : Floats → AntennaPattern → Bool
is_good_pattern F default = true
is_good_pattern F (ideal_omni gain) = F.is_finite gain
is_good_pattern F (profile p) = is_some (encode_tx_antenna_profile F p)

unfoldable pub encode_pattern : Floats → AntennaPattern → Option Bytes
encode_pattern F p = if is_good_pattern F p then some (pattern_bytes p) else none

-- The pattern of what is read: the kind, the gain, the profile, the azimuth and the elevation.
unfoldable pub pattern_of : Floats → ℕ → ℕ → TxAntennaProfile → Option AntennaPattern
pattern_of F kind gain p =
    if kind == 0
    then some default
    else (if kind == 1
        then (if F.is_finite gain then some (ideal_omni gain) else none)
        else (if kind == 2
            then (if is_some (encode_tx_antenna_profile F p) then some (profile p) else none)
            else none))

unfoldable pub read_pattern : Floats → Reader AntennaPattern
read_pattern F input = read_u8 input >>= λ kind. read_u64 kind.1 >>= λ gain.
    read_u16 gain.1 >>= λ profile_id. read_u64 profile_id.1 >>= λ azimuth.
    read_u64 azimuth.1 >>= λ elevation.
    pattern_of F kind.0 gain.0 (record {
      profile_id = profile_id.0;
      azimuth_degrees = azimuth.0;
      elevation_degrees = elevation.0;
    })
    >>= λ p. some (p, elevation.1)

abbrev pub PatternFits : AntennaPattern → Type 0
PatternFits default = Unit {0}
PatternFits (ideal_omni gain) = gain < u64_mod
PatternFits (profile p) = TxAntennaProfileFits p

-- What is read of a pattern's fields.
read_pattern-fields_bytes :
    (F : Floats) (kind gain : ℕ) (p : TxAntennaProfile) (rest : Bytes)
    → gain < u64_mod
    → TxAntennaProfileFits p
    → read_pattern F
        (fields_bytes kind gain p.profile_id p.azimuth_degrees p.elevation_degrees ++ rest)
      ≡ (pattern_of F kind gain p >>= λ found. some (found, rest))
unfolding read_pattern fields_bytes read_u8 read_u16 read_u64 be64 be32 be16
read_pattern-fields_bytes F kind gain p rest g h =
    let e0 = head64-be64 gain [] g in
    let e1 = head16-be16 p.profile_id [] h.0 in
    let e2 = head64-be64 p.azimuth_degrees [] h.1 in
    let e3 = head64-be64 p.elevation_degrees [] h.2 in cc

abbrev no_profile : TxAntennaProfile
no_profile = record { profile_id = 0; azimuth_degrees = 0; elevation_degrees = 0 }

pub read_pattern-pattern_bytes :
    (F : Floats) (p : AntennaPattern) (rest : Bytes)
    → PatternFits p
    → is_good_pattern F p ≡ true
    → read_pattern F (pattern_bytes p ++ rest) ≡ some (p, rest)
unfolding pattern_of is_good_pattern
read_pattern-pattern_bytes F default rest h g =
    read_pattern-fields_bytes F 0 0 no_profile rest (omega arith)
      (omega arith, omega arith, omega arith)
read_pattern-pattern_bytes F (ideal_omni gain) rest h g =
    read_pattern-fields_bytes F 1 gain no_profile rest h (omega arith, omega arith, omega arith)
    ∙ rw g
read_pattern-pattern_bytes F (profile p) rest h g =
    read_pattern-fields_bytes F 2 0 p rest (omega arith) h ∙ rw g

pub length-pattern_bytes : (p : AntennaPattern) → length (pattern_bytes p) ≡ 27
unfolding fields_bytes be64 be32 be16
length-pattern_bytes default = refl
length-pattern_bytes (ideal_omni gain) = refl
length-pattern_bytes (profile p) = refl
