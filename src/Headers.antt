-- ===== src/Headers.antt =====
-- onvm/shared/onvm_pkt_helper.c and `onvm_ft_fill_key` of onvm/shared/onvm_flow_table.h: where the
-- headers of a packet lie, and the five-tuple that names its flow. A packet is the bytes that
-- `rte_pktmbuf_mtod` points to, and a pointer into it is an offset. The host is little-endian.
pub mod Frame
pub mod Swap
mod Tests
use nfvnice_source.Prelude.{
  ℕ, ◌+◌, ◌*◌, ◌/◌, ◌%◌, List, [], ◌∷◌, Option, none, some, get_or, set, Bool, true, false, not,
  ◌==◌, if◌then◌else◌, ℤ, pos, negsuc,
}

-- `sizeof` of `struct ether_hdr`, `vlan_hdr` and `ipv4_hdr`, `ETHER_TYPE_VLAN` and the protocol numbers.
abbrev pub ether_size : ℕ
ether_size = 14

abbrev pub vlan_size : ℕ
vlan_size = 4

abbrev pub ipv4_size : ℕ
ipv4_size = 20

abbrev pub ether_type_vlan : ℕ
ether_type_vlan = 0x8100

abbrev pub ip_protocol_tcp : ℕ
ip_protocol_tcp = 6

abbrev pub ip_protocol_udp : ℕ
ip_protocol_udp = 17

abbrev pub load8 : List ℕ → ℕ → ℕ
load8 p i = get_or p i 0

abbrev pub load16 : List ℕ → ℕ → ℕ
load16 p i = load8 p i + 256 * load8 p (i + 1)

abbrev pub load32 : List ℕ → ℕ → ℕ
load32 p i = load16 p i + 65536 * load16 p (i + 2)

-- `rte_be_to_cpu_16`.
abbrev pub swap16 : ℕ → ℕ
swap16 x = x / 256 + 256 * (x % 256)

-- The field `ether_type`, in host order.
pub ether_type : List ℕ → ℕ
ether_type p = swap16 (load16 p 12)

-- `onvm_pkt_ipv4_hdr`.
unfoldable pub onvm_pkt_ipv4_hdr : List ℕ → Option ℕ
unfolding ether_type
onvm_pkt_ipv4_hdr p =
    let ipv4 = if ether_type p == ether_type_vlan then ether_size + vlan_size else ether_size in
    if (load8 p ipv4 / 16) % 16 == 4 then some ipv4 else none

-- `onvm_pkt_vlan_hdr`.
pub onvm_pkt_vlan_hdr : List ℕ → Option ℕ
unfolding ether_type
onvm_pkt_vlan_hdr p = if ether_type p == ether_type_vlan then some ether_size else none

-- `onvm_pkt_tcp_hdr` and `onvm_pkt_udp_hdr`, which differ in the protocol number only. The offset is
-- counted from the start of the packet, and not from the IPv4 header that was found.
abbrev pub transport_hdr : ℕ → List ℕ → Option ℕ
transport_hdr proto p = elim (onvm_pkt_ipv4_hdr p) [
  | none ↦ none
  | some ipv4 ↦ if load8 p (ipv4 + 9) == proto then some (ether_size + ipv4_size) else none
]

pub onvm_pkt_tcp_hdr : List ℕ → Option ℕ
onvm_pkt_tcp_hdr p = transport_hdr ip_protocol_tcp p

pub onvm_pkt_udp_hdr : List ℕ → Option ℕ
onvm_pkt_udp_hdr p = transport_hdr ip_protocol_udp p

abbrev is_some {ℓ} : {A : Type ℓ} → Option A → Bool
is_some none = false
is_some (some a) = true

-- `onvm_pkt_is_tcp`, `onvm_pkt_is_udp` and `onvm_pkt_is_ipv4`.
pub onvm_pkt_is_tcp : List ℕ → Bool
onvm_pkt_is_tcp p = is_some (onvm_pkt_tcp_hdr p)

pub onvm_pkt_is_udp : List ℕ → Bool
onvm_pkt_is_udp p = is_some (onvm_pkt_udp_hdr p)

pub onvm_pkt_is_ipv4 : List ℕ → Bool
onvm_pkt_is_ipv4 p = is_some (onvm_pkt_ipv4_hdr p)

-- `struct onvm_ft_ipv4_5tuple`; the fields keep the byte order of the packet.
pub record Key : Type 0 where
  pub src_addr : ℕ
  pub dst_addr : ℕ
  pub src_port : ℕ
  pub dst_port : ℕ
  pub proto : ℕ

-- The two ports at a transport header. The callers look at a header that their test has found; a
-- missing one would be a read through NULL, which `Frame` rules out.
abbrev pub ports_at : List ℕ → Option ℕ → ℕ × ℕ
ports_at p none = (0, 0)
ports_at p (some h) = (load16 p h, load16 p (h + 2))

abbrev pub key_at : List ℕ → ℕ → Key
key_at p ipv4 =
    let proto = load8 p (ipv4 + 9) in
    let ports =
      if proto == ip_protocol_tcp
      then ports_at p (onvm_pkt_tcp_hdr p)
      else if proto == ip_protocol_udp
      then ports_at p (onvm_pkt_udp_hdr p)
      else (0, 0) in
    record {
      src_addr = load32 p (ipv4 + 12);
      dst_addr = load32 p (ipv4 + 16);
      src_port = ports.0;
      dst_port = ports.1;
      proto = proto;
    }

-- `onvm_ft_fill_key`; `none` is the return value -EPROTONOSUPPORT.
unfoldable pub onvm_ft_fill_key : List ℕ → Option Key
onvm_ft_fill_key p = elim (onvm_pkt_ipv4_hdr p) [ none ↦ none | some ipv4 ↦ some (key_at p ipv4) ]

-- `ether_addr_copy(from, to)`: six bytes.
abbrev pub store : List ℕ → ℕ → List ℕ → List ℕ
store [] i p = p
store (b ∷ bs) i p = store bs (i + 1) (set p i b)

abbrev pub addr_at : List ℕ → ℕ → List ℕ
addr_at p i =
    load8 p i
    ∷ load8 p (i + 1)
    ∷ load8 p (i + 2)
    ∷ load8 p (i + 3)
    ∷ load8 p (i + 4)
    ∷ load8 p (i + 5)
    ∷ []

-- `onvm_pkt_mac_addr_swap`. `port_addr` is the address that `rte_eth_macaddr_get` gives for the port,
-- and `addr` is what the local variable `addr` holds: nothing is stored in it.
pub onvm_pkt_mac_addr_swap : List ℕ → List ℕ → List ℕ → List ℕ
onvm_pkt_mac_addr_swap addr port_addr p =
    let copied = store (addr_at p 6) 0 p in
    let named = store port_addr 6 copied in store addr 6 named
