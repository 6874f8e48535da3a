-- ===== src/Net/Ipv4.antt =====
-- src/net/ipv4.h, src/net/ipv4.cpp: sending a packet and delivering one to the protocol handlers.
-- As in the Ethernet driver, delivery is the list of the calls that the loop makes.
pub mod RoundTrip
pub mod Ready
use layla_os.Base.{
  ℕ, zero, suc, ◌+◌, ◌%◌, ◌^◌, List, [], ◌∷◌, ◌++◌, Option, none, some, ◌>>=◌, Bool, true, false,
  not, if◌then◌else◌, ltb, ◌==◌, ◌!=◌, ◌>>>◌, u16, add32, sub32, set, drop, replicate,
}
use layla_os.Net.Wire.{
  Ipv4Address, ip_eq, ip_bytes, load_ip, load8, load16, bytes16, htons, ntohs, read, write_at,
}
use layla_os.Net.Checksum.{internet_checksum}
use layla_os.Net.Ethernet.{send_frame}
use layla_os.Net.Arp.{Link, with_card, resolve}

abbrev pub ethertype_ipv4 : ℕ
ethertype_ipv4 = 0x0800

pub record ProtoEntry {ℓ} (H : Type ℓ) : Type ℓ where
  pub protocol : ℕ
  pub handler : Option H

pub record Ipv4Handler {ℓ} (H : Type ℓ) : Type ℓ where
  pub local_ip : Ipv4Address
  pub id_counter : ℕ
  pub handlers : List (ProtoEntry H)
  pub handler_count : ℕ
  pub tx_buf : List ℕ

-- The arguments of one `HandleIPv4Payload`.
pub record Ipv4Call {ℓ} (H : Type ℓ) : Type ℓ where
  pub callee : H
  pub payload : List ℕ
  pub size : ℕ
  pub src : Ipv4Address
  pub dst : Ipv4Address
  pub protocol : ℕ

-- The 20 bytes of an `IPv4Header`, for a value of the checksum field.
unfoldable pub header_with : List ℕ → ℕ → ℕ → Ipv4Address → Ipv4Address → ℕ → List ℕ
header_with checksum total_length identification src dst protocol =
    0x45
    ∷ (0
        ∷ (bytes16 (htons total_length)
            ++ (bytes16 (htons identification)
                ++ (0 ∷ (0 ∷ (64 ∷ (protocol ∷ (checksum ++ (ip_bytes src ++ ip_bytes dst)))))))))

-- The header with its checksum, which is computed over the field zeroed.
unfoldable pub ipv4_header : ℕ → ℕ → Ipv4Address → Ipv4Address → ℕ → List ℕ
ipv4_header total_length identification src dst protocol =
    let zeroed = header_with (0 ∷ (0 ∷ [])) total_length identification src dst protocol in
    header_with (bytes16 (internet_checksum zeroed)) total_length identification src dst protocol

module _ {ℓ} {H : Type ℓ} where
  unfoldable pub new_ipv4 : Ipv4Address → Ipv4Handler H
  new_ipv4 local_ip = record {
    local_ip = local_ip;
    id_counter = 0;
    handlers = replicate 4 (record { protocol = 0; handler = none });
    handler_count = 0;
    tx_buf = replicate 1500 0;
  }

  unfoldable pub register_protocol : ℕ → Option H → Ipv4Handler H → Ipv4Handler H
  register_protocol protocol p h =
      if ltb h.handler_count 4
      then record {
        local_ip = h.local_ip;
        id_counter = h.id_counter;
        handlers = set h.handlers h.handler_count (record { protocol = protocol; handler = p });
        handler_count = suc h.handler_count;
        tx_buf = h.tx_buf;
      }
      else h

  unfoldable pub protocol_loop : ℕ → (H → Ipv4Call H) → ℕ → List (ProtoEntry H) → List (Ipv4Call H)
  protocol_loop protocol call zero es = []
  protocol_loop protocol call (suc n) [] = []
  protocol_loop protocol call (suc n) (e ∷ es) =
      let rest = protocol_loop protocol call n es in
      if e.protocol == protocol
      then elim e.handler [ none ↦ rest | some h ↦ call h ∷ rest ]
      else rest

  unfoldable pub deliver : Ipv4Handler H → List ℕ → ℕ → List (Ipv4Call H)
  deliver h packet size =
      let call : H → Ipv4Call H = λ p. record {
        callee = p;
        payload = drop 20 packet;
        size = sub32 (ntohs (load16 packet 2)) 20;
        src = load_ip packet 12;
        dst = load_ip packet 16;
        protocol = load8 packet 9;
      } in
      if ltb size 20
      then []
      else if load8 packet 0 >>> 4 != 4
      then []
      else if not (ip_eq (load_ip packet 16) h.local_ip)
      then []
      else if internet_checksum (read 20 packet) != 0
      then []
      else protocol_loop (load8 packet 9) call h.handler_count h.handlers

  unfoldable pub send_ipv4 :
      Ipv4Address → ℕ → List ℕ → ℕ → Ipv4Handler H → Link → Option (Bool × Ipv4Handler H × Link)
  send_ipv4 dst_ip protocol payload size h l = elim (resolve dst_ip l.cache) [
    | none ↦ some (false, h, l)
    | some dst_mac ↦ do
      buf ← write_at h.tx_buf 0 (
          ipv4_header (u16 (20 + size)) h.id_counter h.local_ip dst_ip protocol
          ++ read size payload)
      card ← send_frame dst_mac ethertype_ipv4 buf (add32 20 size) l.card
      some (
        true,
        record {
          local_ip = h.local_ip;
          id_counter = u16 (suc h.id_counter);
          handlers = h.handlers;
          handler_count = h.handler_count;
          tx_buf = buf;
        },
        with_card l card,
      )
  ]
