-- ===== src/Headers/Frame.antt =====
-- The five-tuple that is read from a frame.
use nfvnice_source.Prelude.{ℕ, ◌+◌, ◌*◌, ◌/◌, ◌%◌, ◌^◌, ◌<◌, ◌≡◌, ◌≢◌, ◌⊎◌, List, ◌∷◌, some, arith}
use nfvnice_source.Headers.{
  Key, ether_type, onvm_pkt_ipv4_hdr, onvm_pkt_tcp_hdr, onvm_pkt_udp_hdr, onvm_ft_fill_key,
  ip_protocol_tcp, ip_protocol_udp,
}

abbrev bytes16 : ℕ → List ℕ → List ℕ
bytes16 x rest = x % 256 ∷ x / 256 ∷ rest

abbrev bytes32 : ℕ → List ℕ → List ℕ
bytes32 x rest = bytes16 (x % 65536) (bytes16 (x / 65536) rest)

-- An untagged frame of a flow: MAC addresses, type 0x0800, an IPv4 header without options, and the
-- transport header, whose ports come first. `ttl` and `payload` stand for all that the key leaves out.
pub frame : Key → ℕ → List ℕ → List ℕ
frame k ttl payload =
    2
    ∷ 0
    ∷ 0
    ∷ 0
    ∷ 0
    ∷ 1
    ∷ 2
    ∷ 0
    ∷ 0
    ∷ 0
    ∷ 0
    ∷ 2
    ∷ 8
    ∷ 0
    ∷ 0x45
    ∷ 0
    ∷ 0
    ∷ 40
    ∷ 0
    ∷ 0
    ∷ 0
    ∷ 0
    ∷ ttl
    ∷ k.proto
    ∷ 0
    ∷ 0
    ∷ bytes32 k.src_addr (bytes32 k.dst_addr (bytes16 k.src_port (bytes16 k.dst_port payload)))

-- A key of the flow table: the fields fit their types, and only TCP and UDP have ports.
pub record IsKey (k : Key) : Type 0 where
  pub src_addr_fits : k.src_addr < 2 ^ 32
  pub dst_addr_fits : k.dst_addr < 2 ^ 32
  pub src_port_fits : k.src_port < 2 ^ 16
  pub dst_port_fits : k.dst_port < 2 ^ 16
  pub ports_of :
      (k.proto ≡ ip_protocol_tcp)
      ⊎ (k.proto ≡ ip_protocol_udp)
      ⊎ ((k.src_port ≡ 0)
          × (k.dst_port ≡ 0)
          × (k.proto ≢ ip_protocol_tcp)
          × (k.proto ≢ ip_protocol_udp))

-- Reading the five-tuple of an untagged frame gives the flow that the frame was made for.
pub onvm_ft_fill_key-frame :
    (k : Key) (ttl : ℕ) (payload : List ℕ)
    → IsKey k
    → onvm_ft_fill_key (frame k ttl payload) ≡ some k
unfolding onvm_ft_fill_key onvm_pkt_ipv4_hdr onvm_pkt_tcp_hdr onvm_pkt_udp_hdr frame ether_type
onvm_ft_fill_key-frame k ttl payload v = ground arith

-- A tagged TCP or UDP packet: both ports are read from the destination address, because the offset of
-- the transport header leaves the tag out. The address is then the two ports together.
tagged_ports :
    (p : List ℕ) (k : Key)
    → ether_type p ≡ 0x8100
    → onvm_ft_fill_key p ≡ some k
    → (k.proto ≡ ip_protocol_tcp) ⊎ (k.proto ≡ ip_protocol_udp)
    → k.src_port + 65536 * k.dst_port ≡ k.dst_addr
unfolding onvm_ft_fill_key onvm_pkt_ipv4_hdr onvm_pkt_tcp_hdr onvm_pkt_udp_hdr
tagged_ports p k tag e t = ground arith
