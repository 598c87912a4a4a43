-- ===== src/Mqtt/Publish.antt =====
-- `publishQoS1` of server/internal/push/mqtt.go: one session that publishes one message at quality
-- of service 1. Beside its outcome it gives the packets that it wrote, in order.
use xmdm.Common.{
  ℕ, suc, ◌≡◌, refl, sym, ap, ◌∙◌, ◌++◌, ◌↔◌, List, [], ◌∷◌, Bool, true, false, not, ◌&&◌,
  if◌then◌else◌, ltb, ◌==◌, length, drop, arith, inl, inr,
}
use xmdm.Mqtt.{
  Wire-cases, Bytes, WireError, ok, err, read_packet, byte_at, encode_remaining_length,
  length_digits,
}
use xmdm.Mqtt.Framing.{read_packet-frame, read_packet-splits}
use xmdm.Mqtt.Packets.{Config, frame, connect_packet, publish_packet_qos, read_packet_id}
use xmdm.Mqtt.Responses.{Network, connack_accepts}

pub data PublishError : Type 0 where
  dial_failed deadline_failed write_failed connection_rejected not_acknowledged : PublishError
  wire_failed : WireError → PublishError

pub data Published : Type 0 where
  done : Published
  failed : PublishError → Published

-- A PUBACK of two more bytes, which are the packet's number.
unfoldable pub puback_confirms : Bytes → ℕ → Bool
puback_confirms packet packet_id =
    not (ltb (length packet) 4)
    && byte_at packet 0 == 0x40
    && byte_at packet 1 == 0x02
    && read_packet_id (drop 2 packet) == packet_id

abbrev pub disconnect_packet : Bytes
disconnect_packet = 0xE0 ∷ 0x00 ∷ []

-- `deadlines` tells whether the second `SetDeadline`, after the CONNACK, succeeds.
unfoldable pub publish_qos1 : Config → Network → Bool → Bytes → Bytes → Published × List Bytes
publish_qos1 cfg net deadlines topic payload =
    let hello = connect_packet cfg in
    let message = publish_packet_qos topic payload 1 1 in
    if not net.dials
    then (failed dial_failed, [])
    else if not net.takes_deadline
    then (failed deadline_failed, [])
    else if not (net.writes hello)
    then (failed write_failed, [])
    else elim (read_packet net.incoming) [
      | err e ↦ (failed (wire_failed e), hello ∷ [])
      | ok (connack, rest) ↦
          if not (connack_accepts connack)
          then (failed connection_rejected, hello ∷ [])
          else if not deadlines
          then (failed deadline_failed, hello ∷ [])
          else if not (net.writes message)
          then (failed write_failed, hello ∷ [])
          else elim (read_packet rest) [
            | err e ↦ (failed (wire_failed e), hello ∷ message ∷ [])
            | ok (puback, rest') ↦
                if not (puback_confirms puback 1)
                then (failed not_acknowledged, hello ∷ message ∷ [])
                else if not (net.writes disconnect_packet)
                then (failed write_failed, hello ∷ message ∷ [])
                else (done, hello ∷ message ∷ disconnect_packet ∷ [])
          ]
    ]

-- What has to happen for the publication to count as delivered, byte for byte: the network takes the
-- connection, both deadlines and the three packets; the broker's first packet is of the type CONNACK
-- with the return code 0; and right behind it comes the PUBACK of the message's number, 1.
pub record IsDelivered (cfg : Config) (net : Network) (deadlines : Bool) (topic payload : Bytes)
    : Type 0 where
  pub length_byte : ℕ
  pub flags : ℕ
  pub more : Bytes
  pub rest : Bytes
  pub dialled : net.dials ≡ true
  pub timed : net.takes_deadline ≡ true
  pub timed_again : deadlines ≡ true
  pub greeted : net.writes (connect_packet cfg) ≡ true
  pub sent : net.writes (publish_packet_qos topic payload 1 1) ≡ true
  pub closed : net.writes (0xE0 ∷ 0x00 ∷ []) ≡ true
  pub accepted :
      read_packet net.incoming
      ≡ ok (0x20 ∷ length_byte ∷ flags ∷ 0x00 ∷ more, 0x40 ∷ 0x02 ∷ 0x00 ∷ 0x01 ∷ rest)

-- A CONNACK that accepts, in bytes.
connack_bytes :
    (packet : Bytes)
    → connack_accepts packet ≡ true
    → (a b : ℕ) × (more : Bytes) × (packet ≡ 0x20 ∷ a ∷ b ∷ 0x00 ∷ more)
unfolding connack_accepts
connack_bytes [] h = absurd (ground arith)
connack_bytes (x ∷ []) h = absurd (ground arith)
connack_bytes (x ∷ a ∷ []) h = absurd (ground arith)
connack_bytes (x ∷ a ∷ b ∷ []) h = absurd (ground arith)
connack_bytes (x ∷ a ∷ b ∷ y ∷ more) h =
    let kind : x ≡ 0x20 = ground arith in
    let code : y ≡ 0x00 = ground arith in (a, b, more, rw (kind, code) refl)

not_short : (n : ℕ) → ltb (suc (suc (suc (suc n)))) 4 ≡ false
not_short n = ground arith

bytes_accept : (a b : ℕ) (more : Bytes) → connack_accepts (0x20 ∷ a ∷ b ∷ 0x00 ∷ more) ≡ true
unfolding connack_accepts
bytes_accept a b more = rw (not_short (length more)) refl

-- The PUBACK of the number 1, in bytes.
puback_bytes :
    (packet : Bytes)
    → puback_confirms packet 1 ≡ true
    → (more : Bytes) × (packet ≡ 0x40 ∷ 0x02 ∷ 0x00 ∷ 0x01 ∷ more)
unfolding puback_confirms read_packet_id
puback_bytes [] h = absurd (ground arith)
puback_bytes (x ∷ []) h = absurd (ground arith)
puback_bytes (x ∷ y ∷ []) h = absurd (ground arith)
puback_bytes (x ∷ y ∷ hi ∷ []) h = absurd (ground arith)
puback_bytes (x ∷ y ∷ hi ∷ lo ∷ more) h =
    let kind : x ≡ 0x40 = ground arith in
    let size : y ≡ 0x02 = ground arith in
    let high : hi ≡ 0x00 = ground arith in
    let low : lo ≡ 0x01 = ground arith in (more, rw (kind, size, high, low) refl)

-- A PUBACK of the number 1 is read whole, whatever follows.
read-puback :
    (rest : Bytes)
    → read_packet (0x40 ∷ 0x02 ∷ 0x00 ∷ 0x01 ∷ rest) ≡ ok (0x40 ∷ 0x02 ∷ 0x00 ∷ 0x01 ∷ [], rest)
unfolding encode_remaining_length length_digits frame
read-puback rest = read_packet-frame 0x40 (0x00 ∷ 0x01 ∷ []) rest (omega arith)

-- The bytes from which a PUBACK of the number 1 was read begin with it.
puback-source :
    (r packet rest : Bytes)
    → read_packet r ≡ ok (packet, rest)
    → puback_confirms packet 1 ≡ true
    → r ≡ 0x40 ∷ 0x02 ∷ 0x00 ∷ 0x01 ∷ rest
puback-source r packet rest h confirms =
    let (more, bytes) = puback_bytes packet confirms in
    let split : r ≡ 0x40 ∷ 0x02 ∷ 0x00 ∷ 0x01 ∷ (more ++ rest) =
      read_packet-splits r h ∙ ap (λ (x : Bytes). x ++ rest) bytes in
    let again = sym (read-puback (more ++ rest)) ∙ ap read_packet (sym split) ∙ h in
    cc (split, again)

module _ (cfg : Config) (net : Network) (deadlines : Bool) (topic payload : Bytes) where
  publish_qos1-IsDelivered :
      (publish_qos1 cfg net deadlines topic payload).0 ≡ done
      → IsDelivered cfg net deadlines topic payload
  unfolding publish_qos1
  publish_qos1-IsDelivered h = elim (Wire-cases (read_packet net.incoming)) [
    | inl (e, broken) ↦ absurd (ground arith)
    | inr (p, first) ↦ elim (Wire-cases (read_packet p.1)) [
      | inl (e, broken) ↦ absurd (ground arith)
      | inr (q, second) ↦
          let accepts : connack_accepts p.0 ≡ true = ground arith in
          let confirms : puback_confirms q.0 1 ≡ true = ground arith in
          let (a, b, more, connack) = connack_bytes p.0 accepts in
          record {
            length_byte = a;
            flags = b;
            more = more;
            rest = q.1;
            dialled = ground arith;
            timed = ground arith;
            timed_again = ground arith;
            greeted = ground arith;
            sent = ground arith;
            closed = ground arith;
            accepted = cc (first, connack, puback-source p.1 q.0 q.1 second confirms);
          }
    ]
  ]

  publish_qos1_of_IsDelivered :
      IsDelivered cfg net deadlines topic payload
      → (publish_qos1 cfg net deadlines topic payload).0 ≡ done
  unfolding publish_qos1 puback_confirms read_packet_id
  publish_qos1_of_IsDelivered d =
      rw
        (
          d.dialled,
          d.timed,
          d.greeted,
          d.accepted,
          bytes_accept d.length_byte d.flags d.more,
          d.timed_again,
          d.sent,
          read-puback d.rest,
          d.closed,
        )
        refl

  -- The publication is done exactly when the network takes the connection, both deadlines and the
  -- three packets, the broker's first packet is of the type CONNACK with the return code 0, and the
  -- bytes behind it begin with the PUBACK of the message's number.
  pub publish_qos1-done_iff :
      ((publish_qos1 cfg net deadlines topic payload).0 ≡ done)
      ↔ IsDelivered cfg net deadlines topic payload
  publish_qos1-done_iff = (publish_qos1-IsDelivered, publish_qos1_of_IsDelivered)
