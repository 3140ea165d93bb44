-- ===== src/Api/MimoTx/Whole.antt =====
-- `MimoTxProperties::encode` and `decode`. The sums and products of lengths do not overflow: the counts
-- have 16 bits.
use emane.Base.{
  ◌*◌, ◌<◌, ◌≡◌, refl, sym, ap, subst, ◌∙◌, Bool, true, false, not, ◌||◌, Option, none, some, List,
  [], ◌∷◌, ◌++◌, length, length-append, drop, ltb, ◌==◌, if◌then◌else◌, arith,
}
use mathlib.Core.List.{append-nil}
use emane.Base.Bytes.{Bytes, be16, from_be16-be16}
use emane.Base.Bytes.Fields.{get_u8, get_u16}
use emane.Api.{Floats, mimo_tx_properties_version, u16_mod, otherwise-some}
use emane.Api.Pattern.{MimoTxAntenna, is_good_pattern, encode_pattern}
use emane.Api.Cursor.{
  ◌>>=◌, read_u16, read_many, Cursor, write_many, AllFit, read_many-write_many, read_u16-be16,
  bind-some, when-some,
}
use emane.Api.MimoTx.{
  MimoTxFrequencySegment, MimoTxProperties, read_group, group_cursor, antenna_bytes,
  encode_antennas, read_antenna, AntennaFits, read_antenna-antenna_bytes, segment_cursor,
  length-antenna_bytes,
}

module _ (F : Floats) where
  unfoldable pub any_infinite : List MimoTxFrequencySegment → Bool
  any_infinite [] = false
  any_infinite (m ∷ items) = not (F.is_finite m.tx_power_dbm) || any_infinite items

  unfoldable pub any_bad_group : List (List MimoTxFrequencySegment) → Bool
  any_bad_group [] = false
  any_bad_group (group ∷ groups) =
      ((length group == 0) || ltb 65535 (length group) || any_infinite group)
      || any_bad_group groups

  unfoldable pub any_infinite_group : List (List MimoTxFrequencySegment) → Bool
  any_infinite_group [] = false
  any_infinite_group (group ∷ groups) = any_infinite group || any_infinite_group groups

  unfoldable pub is_refused_tx : MimoTxProperties → Bool
  is_refused_tx m =
      ltb 65535 (length m.frequency_groups)
      || ltb 65535 (length m.transmit_antennas)
      || (length m.frequency_groups == 0)
      || (length m.transmit_antennas == 0)
      || any_bad_group m.frequency_groups

  abbrev tx_bytes : MimoTxProperties → Bytes → Bytes
  tx_bytes m antennas =
      mimo_tx_properties_version
      ∷ (be16 (length m.frequency_groups)
          ++ (write_many group_cursor m.frequency_groups
              ++ (be16 (length m.transmit_antennas) ++ antennas)))

  unfoldable pub encode_mimo_tx_properties : MimoTxProperties → Option Bytes
  encode_mimo_tx_properties m =
      if is_refused_tx m
      then none
      else (encode_antennas F m.transmit_antennas >>= λ antennas. some (tx_bytes m antennas))

  -- The antennas, which have 41 bytes each and are the last of the message.
  unfoldable pub read_antennas :
      List (List MimoTxFrequencySegment) → Bytes → Option MimoTxProperties
  read_antennas groups input = read_u16 input >>= λ count.
      if (count.0 == 0) || not (length count.1 == count.0 * 41)
      then none
      else (read_many (read_antenna F) count.0 count.1 >>= λ antennas.
          if any_infinite_group groups
          then none
          else some (record { frequency_groups = groups; transmit_antennas = antennas.0 }))

  unfoldable pub decode_mimo_tx_properties : Bytes → Option MimoTxProperties
  decode_mimo_tx_properties input =
      if ltb (length input) 5 || not (get_u8 input 0 == mimo_tx_properties_version)
      then none
      else (if get_u16 input 1 == 0
          then none
          else (read_many read_group (get_u16 input 1) (drop 3 input) >>= λ groups.
              read_antennas groups.0 groups.1))

  abbrev antenna_cursor : Cursor MimoTxAntenna
  antenna_cursor = record {
    bytes = antenna_bytes;
    read = read_antenna F;
    Fits = λ a. AntennaFits F a × (is_good_pattern F a.pattern ≡ true);
    read-bytes = read_antenna-antenna_bytes F;
  }

  abbrev AllAntennasFit : List MimoTxAntenna → Type 0
  AllAntennasFit [] = Unit {0}
  AllAntennasFit (a ∷ items) = AntennaFits F a × AllAntennasFit items

  abbrev AllSegmentsFit : List (List MimoTxFrequencySegment) → Type 0
  AllSegmentsFit [] = Unit {0}
  AllSegmentsFit (group ∷ groups) = AllFit segment_cursor group × AllSegmentsFit groups

  abbrev pub MimoTxPropertiesFits : MimoTxProperties → Type 0
  MimoTxPropertiesFits m = AllSegmentsFit m.frequency_groups × AllAntennasFit m.transmit_antennas

  encode_antennas-some :
      (items : List MimoTxAntenna) (encoded : Bytes)
      → AllAntennasFit items
      → encode_antennas F items ≡ some encoded
      → (encoded ≡ write_many antenna_cursor items) × AllFit antenna_cursor items
  unfolding encode_antennas encode_pattern write_many antenna_bytes
  encode_antennas-some [] encoded f e = (cc, tt)
  encode_antennas-some (a ∷ items) encoded f e =
      let (p, e0, e1) = bind-some (encode_pattern F a.pattern) _ e in
      let (rest, e2, e3) = bind-some (encode_antennas F items) _ e1 in
      let (good, shape) = when-some (is_good_pattern F a.pattern) e0 in
      let (same, fit) = encode_antennas-some items rest f.1 e2 in (cc, ((f.0, good), fit))

  groups-Fit :
      (groups : List (List MimoTxFrequencySegment))
      → AllSegmentsFit groups
      → any_bad_group groups ≡ false
      → AllFit group_cursor groups × (any_infinite_group groups ≡ false)
  unfolding any_bad_group any_infinite_group
  groups-Fit [] f e = (tt, refl)
  groups-Fit (group ∷ groups) f e = ground (arith, groups-Fit groups f.1)

  length-antennas :
      (items : List MimoTxAntenna) → length (write_many antenna_cursor items) ≡ length items * 41
  unfolding write_many
  length-antennas [] = omega arith
  length-antennas (a ∷ items) = ground (
    arith,
    length-append (antenna_bytes a) (write_many antenna_cursor items),
    length-antenna_bytes a,
    length-antennas items,
  )

  read_antennas-antennas :
      (m : MimoTxProperties)
      → length m.transmit_antennas < u16_mod
      → 0 < length m.transmit_antennas
      → AllFit antenna_cursor m.transmit_antennas
      → any_infinite_group m.frequency_groups ≡ false
      → read_antennas m.frequency_groups
          (be16 (length m.transmit_antennas) ++ write_many antenna_cursor m.transmit_antennas)
        ≡ some m
  unfolding read_antennas
  read_antennas-antennas m h pos fit finite =
      let tail : Bytes = write_many antenna_cursor m.transmit_antennas in
      let items : read_many (read_antenna F) (length m.transmit_antennas) tail
          ≡ some (m.transmit_antennas, []) =
        ap (read_many (read_antenna F) (length m.transmit_antennas)) (sym (append-nil tail))
        ∙ read_many-write_many antenna_cursor m.transmit_antennas [] fit in
      rw (read_u16-be16 (length m.transmit_antennas) tail h)
        (rw items (rw finite (ground (arith, length-antennas m.transmit_antennas))))

  -- The head of the message.
  tx_bytes-read :
      (m : MimoTxProperties) (antennas : Bytes)
      → length m.frequency_groups < u16_mod
      → (get_u8 (tx_bytes m antennas) 0 ≡ mimo_tx_properties_version)
        × (get_u16 (tx_bytes m antennas) 1 ≡ length m.frequency_groups)
        × (ltb (length (tx_bytes m antennas)) 5 ≡ false)
        × (drop 3 (tx_bytes m antennas)
            ≡ write_many group_cursor m.frequency_groups
              ++ (be16 (length m.transmit_antennas) ++ antennas))
  unfolding get_u8 get_u16 be16
  tx_bytes-read m antennas h = (
    refl,
    from_be16-be16 (length m.frequency_groups) h,
    ground (
      arith,
      length-append (write_many group_cursor m.frequency_groups)
          (be16 (length m.transmit_antennas) ++ antennas),
    ),
    refl,
  )

  -- Whatever properties `encode` accepts, all of whose numbers are within their types, `decode` reads
  -- from its bytes.
  pub decode-encode_mimo_tx_properties :
      (m : MimoTxProperties) (encoded : Bytes)
      → MimoTxPropertiesFits m
      → encode_mimo_tx_properties m ≡ some encoded
      → decode_mimo_tx_properties encoded ≡ some m
  unfolding encode_mimo_tx_properties decode_mimo_tx_properties is_refused_tx
  decode-encode_mimo_tx_properties m encoded f e =
      let (fine, e0) = otherwise-some (is_refused_tx m) e in
      let (antennas, e1, e2) = bind-some (encode_antennas F m.transmit_antennas) _ e0 in
      let (same, fit) = encode_antennas-some m.transmit_antennas antennas f.1 e1 in
      let (groups, finite) = groups-Fit m.frequency_groups f.0 (ground arith) in
      let (version, count, long, tail) = tx_bytes-read m antennas (ground arith) in
      let some_groups : (length m.frequency_groups == 0) ≡ false = ground arith in
      let whole : tx_bytes m antennas ≡ encoded = cc in
      subst (λ b. decode_mimo_tx_properties b ≡ some m) whole
        (rw long (
          rw version (
            rw count (
              rw some_groups (
                rw tail (
                  rw (read_many-write_many group_cursor m.frequency_groups _ groups) (
                    rw same
                      (read_antennas-antennas m (ground arith) (ground arith) fit finite))))))))
