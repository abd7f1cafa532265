-- ===== src/RedisRelay/Entries.antt =====
-- A message that is written to a stream is read back as it was.
use stream_relay.Prelude.{
  ℕ, ◌<◌, ◌≡◌, ◌≢◌, refl, sym, ap, ap₂, ◌∙◌, some, [], ◌∷◌, Bytes, Bytes-discrete, arith, Map,
  lookup,
}
use stream_relay.Types.{Message}
use stream_relay.Decimal.{pos, int64_bound, format_int}
use stream_relay.Decimal.Laws.{parse_int-format_int}
use stream_relay.RedisRelay.{
  metadata_text, stream_fields, parsed_metadata, parsed_timestamp, unix_milli, parse_stream_entry,
}

parsed_metadata-metadata_text :
    (encode : Map Bytes → Bytes) (decode : Bytes → Map Bytes) (m : Map Bytes)
    → decode (encode m) ≡ m
    → encode m ≢ []
    → parsed_metadata decode (metadata_text encode m) ≡ m
parsed_metadata-metadata_text encode decode [] undoes nonempty = refl
parsed_metadata-metadata_text encode decode (x ∷ m) undoes nonempty =
    go (encode (x ∷ m)) nonempty ∙ undoes
  where
    go : (text : Bytes) → text ≢ [] → parsed_metadata decode text ≡ decode text
    go [] h = absurd (h refl)
    go (c ∷ cs) h = refl

-- A message with a timestamp that is written to the stream of a room is read from it with the same
-- contents, under the id of the entry and in that room, if decoding undoes the encoding of its
-- metadata, which is not empty.
pub parse_stream_entry-stream_fields :
    (encode : Map Bytes → Bytes) (decode : Bytes → Map Bytes) (msg : Message) (t : ℕ)
    (id room_id : Bytes)
    → decode (encode msg.metadata) ≡ msg.metadata
    → encode msg.metadata ≢ []
    → msg.timestamp ≡ some t
    → t < int64_bound
    → parse_stream_entry decode room_id (record { id = id; fields = stream_fields encode msg })
      ≡ record msg { id = id; room_id = room_id }
unfolding parse_stream_entry stream_fields lookup Bytes-discrete
parse_stream_entry-stream_fields encode decode msg t id room_id undoes nonempty stamped small =
    let data_back = parsed_metadata-metadata_text encode decode msg.metadata undoes nonempty in
    let time_back = parse_int-format_int (pos t) small in
    let back : parsed_timestamp (some (format_int (pos t))) ≡ some t = ground arith in
    let time_kept : parsed_timestamp (some (unix_milli msg.timestamp)) ≡ msg.timestamp =
      ap (λ o. parsed_timestamp (some (unix_milli o))) stamped ∙ back ∙ sym stamped in
    ap₂ (λ md ts. record msg { id = id; room_id = room_id; metadata = md; timestamp = ts })
      data_back time_kept
