-- ===== src/Usb/Device/Endpoints.antt =====
-- kernel/usb/device.cpp: what the loop over the endpoints of an interface records.
use uhyok_os.Base.{
  ℕ, zero, suc, ◌+◌, ◌≤◌, ◌<◌, ◌≡◌, sym, ap, ◌∙◌, subst, List, [], ◌∷◌, map, length, take, none,
  some, arith, Option-cases, inl, inr, length-set,
}
use uhyok_os.Usb.Descriptor.{
  Bytes, done, Reader, EndpointDescriptor, EndpointConfig, as_endpoint, make_ep_config,
}
use uhyok_os.Usb.Device.{Device, record_endpoint, read_endpoints}
use uhyok_os.Usb.Device.Chain.{Chain, ends, follows, endpoints_in, reader}

module _ {S : Type 0} where
  -- The endpoints recorded one after the other.
  abbrev pub record_endpoints : ℕ → List EndpointConfig → Device S → Device S
  record_endpoints w [] d = d
  record_endpoints w (conf ∷ confs) d = record_endpoints w confs (record_endpoint w conf d)

-- The endpoints of a chain by its first descriptor.
module _ (memory : Bytes) where
  skipped_in :
      (p : ℕ) (ds : List ℕ)
      → as_endpoint memory p ≡ none
      → endpoints_in memory (p ∷ ds) ≡ endpoints_in memory ds
  skipped_in p ds e = ground (arith, e)

  found_in :
      (p : ℕ) (ds : List ℕ) (d : EndpointDescriptor)
      → as_endpoint memory p ≡ some d
      → endpoints_in memory (p ∷ ds) ≡ d ∷ endpoints_in memory ds
  found_in p ds d e = ground (arith, e)

module _ {S : Type 0} (memory : Bytes) (buf len w num_endpoints : ℕ) where
  -- One step of the loop.
  pub enough :
      (fuel : ℕ) (r : Reader) (d : Device S)
      → num_endpoints ≤ d.num_ep_configs
      → read_endpoints (suc fuel) memory w num_endpoints r d ≡ done d
  unfolding read_endpoints
  enough fuel r d h = ground (arith, h)

  pub skips :
      (fuel p : ℕ) (d : Device S)
      → d.num_ep_configs < num_endpoints
      → p + memory p < buf + len
      → as_endpoint memory (p + memory p) ≡ none
      → read_endpoints (suc fuel) memory w num_endpoints (reader memory buf len p) d
        ≡ read_endpoints fuel memory w num_endpoints (reader memory buf len (p + memory p)) d
  unfolding read_endpoints
  skips fuel p d h l e = ground (arith, h, l, e)

  pub records :
      (fuel p : ℕ) (d : Device S) (e : EndpointDescriptor)
      → d.num_ep_configs < num_endpoints
      → d.num_ep_configs < length d.ep_configs
      → p + memory p < buf + len
      → as_endpoint memory (p + memory p) ≡ some e
      → read_endpoints (suc fuel) memory w num_endpoints (reader memory buf len p) d
        ≡ read_endpoints fuel memory w num_endpoints
            (reader memory buf len (p + memory p))
            (record_endpoint w (make_ep_config e) d)
  unfolding read_endpoints
  records fuel p d e h room l q = ground (arith, h, room, l, q)

  -- The loop records the next endpoints of the chain, as many as are wanted.
  pub read_endpoints-Chain :
      (fuel more : ℕ) {p : ℕ} {ds : List ℕ} (d : Device S)
      → Chain memory (buf + len) p ds
      → length ds < fuel
      → d.num_ep_configs + more ≡ num_endpoints
      → num_endpoints ≤ length d.ep_configs
      → more ≤ length (endpoints_in memory ds)
      → read_endpoints fuel memory w num_endpoints (reader memory buf len p) d
        ≡ done (record_endpoints w (map make_ep_config (take more (endpoints_in memory ds))) d)
  read_endpoints-Chain zero more d c h n room found = absurd (omega arith)
  read_endpoints-Chain (suc fuel) zero {p = p} d c h n room found =
      enough fuel (reader memory buf len p) d (omega arith)
  read_endpoints-Chain (suc fuel) (suc more) d (ends l) h n room found = absurd (omega arith)
  read_endpoints-Chain (suc fuel) (suc more) {p = p} d (follows {ds = ds} l c) h n room found =
      elim (Option-cases (as_endpoint memory (p + memory p))) [
        | inl e ↦
            let same = skipped_in memory (p + memory p) ds e in
            skips fuel p d (omega arith) l e
            ∙ read_endpoints-Chain fuel (suc more) d c (omega arith) n room
                (subst (λ es. suc more ≤ length es) same found)
            ∙ ap (λ es. done (record_endpoints w (map make_ep_config (take (suc more) es)) d))
                (sym same)
        | inr (desc, e) ↦
            let first = found_in memory (p + memory p) ds desc e in
            let wanted = subst (λ es. suc more ≤ length es) first found in
            records fuel p d desc (omega arith) (omega arith) l e
            ∙ read_endpoints-Chain fuel more (record_endpoint w (make_ep_config desc) d) c
                (omega arith) (omega arith)
                (subst (λ k. num_endpoints ≤ k)
                  (sym (length-set d.ep_configs d.num_ep_configs (make_ep_config desc))) room)
                (omega arith)
            ∙ ap (λ es. done (record_endpoints w (map make_ep_config (take (suc more) es)) d))
                (sym first)
      ]
