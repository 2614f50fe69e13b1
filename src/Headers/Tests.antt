-- ===== src/Headers/Tests.antt =====
-- A TCP flow.
use nfvnice_source.Headers.{Key, onvm_ft_fill_key}
use nfvnice_source.Headers.Frame.{frame, IsKey, onvm_ft_fill_key-frame}
use nfvnice_source.Prelude.{◌≡◌, refl, inl, [], ◌∷◌, some, arith}

abbrev flow : Key
flow = record {
  src_addr = 1677721610;
  dst_addr = 33554442;
  src_port = 80;
  dst_port = 1024;
  proto = 6;
}

flow-IsKey : IsKey flow
flow-IsKey = record {
  src_addr_fits = omega arith;
  dst_addr_fits = omega arith;
  src_port_fits = omega arith;
  dst_port_fits = omega arith;
  ports_of = inl refl;
}

onvm_ft_fill_key-frame_example : onvm_ft_fill_key (frame flow 64 (1 ∷ 2 ∷ [])) ≡ some flow
onvm_ft_fill_key-frame_example = onvm_ft_fill_key-frame flow 64 (1 ∷ 2 ∷ []) flow-IsKey
