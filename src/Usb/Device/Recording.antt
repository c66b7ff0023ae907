-- ===== src/Usb/Device/Recording.antt =====
-- kernel/usb/device.cpp: the state of a device once the endpoints of an interface are recorded, and
-- once their configurations are handed to the driver.
use uhyok_os.Base.{
  ℕ, zero, suc, ◌+◌, ◌≤◌, ◌<◌, ◌≡◌, refl, sym, ap, ◌∙◌, List, [], ◌∷◌, ◌++◌, length, get_elem?, set,
  take, none, some, arith, All, length-set, get_elem?-set_self, get_elem?-set_ne, ℕ_discrete,
}
use uhyok_os.Usb.Hid.{Driver, set_endpoint}
use uhyok_os.Usb.Descriptor.{EndpointDescriptor, EndpointConfig, done, number, make_ep_config}
use uhyok_os.Usb.Device.{Device, record_endpoint, set_endpoints, put_driver}
use uhyok_os.Usb.Device.Endpoints.{record_endpoints}

-- An endpoint number has 4 bits.
pub number-make_ep_config : (e : EndpointDescriptor) → number (make_ep_config e).ep_id < 16
number-make_ep_config e = ground arith

module _ {ℓ} {A : Type ℓ} where
  take-set :
      (xs : List A) (i : ℕ) (v : A)
      → i < length xs
      → take (suc i) (set xs i v) ≡ take i xs ++ v ∷ []
  take-set [] i v h = absurd (omega arith)
  take-set (x ∷ xs) zero v h = refl
  take-set (x ∷ xs) (suc i) v h = ap (λ l. x ∷ l) (take-set xs i v (omega arith))

  take-cong : (m n : ℕ) (xs : List A) → m ≡ n → take m xs ≡ take n xs
  take-cong m n xs e = ap (λ k. take k xs) e

  append-none : (xs : List A) → xs ++ [] ≡ xs
  append-none [] = refl
  append-none (x ∷ xs) = ap (λ l. x ∷ l) (append-none xs)

  append-one : (xs : List A) (y : A) (ys : List A) → (xs ++ y ∷ []) ++ ys ≡ xs ++ y ∷ ys
  append-one [] y ys = refl
  append-one (x ∷ xs) y ys = ap (λ l. x ∷ l) (append-one xs y ys)

  pub get_elem?-last : (xs : List A) (y : A) → get_elem? (xs ++ y ∷ []) (length xs) ≡ some y
  get_elem?-last [] y = refl
  get_elem?-last (x ∷ xs) y = get_elem?-last xs y

-- All the configurations of a driver, handed to it.
abbrev pub set_all : List EndpointConfig → Driver → Driver
set_all [] driver = driver
set_all (conf ∷ confs) driver = set_all confs (set_endpoint conf driver)

-- A driver is called for an endpoint.
module _ {ℓ} {A : Type ℓ} where
  set-set : (xs : List A) (i : ℕ) (a b : A) → set (set xs i a) i b ≡ set xs i b
  set-set [] i a b = refl
  set-set (x ∷ xs) zero a b = refl
  set-set (x ∷ xs) (suc i) a b = ap (λ l. x ∷ l) (set-set xs i a b)

  set-same : (xs : List A) (i : ℕ) (a : A) → get_elem? xs i ≡ some a → set xs i a ≡ xs
  set-same [] i a e = refl
  set-same (x ∷ xs) zero a e = ap (λ o. elim o [ none ↦ xs | some y ↦ y ∷ xs ]) (sym e)
  set-same (x ∷ xs) (suc i) a e = ap (λ l. x ∷ l) (set-same xs i a e)

module _ {S : Type 0} where
  abbrev pub IsBound : Device S → ℕ → EndpointConfig → Type 0
  IsBound d w conf = get_elem? d.class_drivers (number conf.ep_id) ≡ some (some w)

module _ {S : Type 0} (w : ℕ) where
  pub ep_configs-record_endpoints :
      (confs : List EndpointConfig) (d : Device S)
      → d.num_ep_configs + length confs ≤ length d.ep_configs
      → take (d.num_ep_configs + length confs) (record_endpoints w confs d).ep_configs
        ≡ take d.num_ep_configs d.ep_configs ++ confs
  ep_configs-record_endpoints [] d h =
      take-cong (d.num_ep_configs + 0) d.num_ep_configs d.ep_configs (omega arith)
      ∙ sym (append-none (take d.num_ep_configs d.ep_configs))
  ep_configs-record_endpoints (conf ∷ confs) d h =
      take-cong (d.num_ep_configs + suc (length confs)) (d.num_ep_configs + 1 + length confs)
        (record_endpoints w confs (record_endpoint w conf d)).ep_configs (omega arith)
      ∙ ep_configs-record_endpoints confs (record_endpoint w conf d)
          (omega (arith, length-set d.ep_configs d.num_ep_configs conf))
      ∙ ap (λ l. l ++ confs)
          (take-cong (d.num_ep_configs + 1) (suc d.num_ep_configs)
              (set d.ep_configs d.num_ep_configs conf) (omega arith)
            ∙ take-set d.ep_configs d.num_ep_configs conf (omega arith))
      ∙ append-one (take d.num_ep_configs d.ep_configs) conf confs

  pub num_ep_configs-record_endpoints :
      (confs : List EndpointConfig) (d : Device S)
      → (record_endpoints w confs d).num_ep_configs ≡ d.num_ep_configs + length confs
  num_ep_configs-record_endpoints [] d = omega arith
  num_ep_configs-record_endpoints (conf ∷ confs) d =
      omega (arith, num_ep_configs-record_endpoints confs (record_endpoint w conf d))

  -- Nothing else than the three members changes.
  pub record_endpoints-Kept :
      (confs : List EndpointConfig) (d : Device S)
      → record_endpoints w confs d ≡ record d {
        ep_configs = (record_endpoints w confs d).ep_configs;
        num_ep_configs = (record_endpoints w confs d).num_ep_configs;
        class_drivers = (record_endpoints w confs d).class_drivers;
      }
  record_endpoints-Kept [] d = refl
  record_endpoints-Kept (conf ∷ confs) d = record_endpoints-Kept confs (record_endpoint w conf d)

  stays-IsBound :
      (c : EndpointConfig) (confs : List EndpointConfig) (d : Device S)
      → length d.class_drivers ≡ 16
      → number c.ep_id < 16
      → IsBound d w c
      → IsBound (record_endpoints w confs d) w c
  stays-IsBound c [] d size inside b = b
  stays-IsBound c (conf ∷ confs) d size inside b =
      stays-IsBound c confs (record_endpoint w conf d)
        (length-set d.class_drivers (number conf.ep_id) (some w) ∙ size) inside
        (elim (ℕ_discrete (number conf.ep_id) (number c.ep_id)) [
          | yes e ↦
              ap (λ k. get_elem? (set d.class_drivers k (some w)) (number c.ep_id)) e
              ∙ get_elem?-set_self d.class_drivers (number c.ep_id) (some w) (omega arith)
          | no ne ↦ get_elem?-set_ne d.class_drivers (some w) ne ∙ b
        ])

  pub record_endpoints-Bound :
      (confs : List EndpointConfig) (d : Device S)
      → length d.class_drivers ≡ 16
      → All (λ conf. number conf.ep_id < 16) confs
      → All (IsBound (record_endpoints w confs d) w) confs
  record_endpoints-Bound [] d size inside = tt
  record_endpoints-Bound (conf ∷ confs) d size (first, inside) =
      let size' = length-set d.class_drivers (number conf.ep_id) (some w) ∙ size in
      (
        stays-IsBound conf confs (record_endpoint w conf d) size' first
            (get_elem?-set_self d.class_drivers (number conf.ep_id) (some w) (omega arith)),
        record_endpoints-Bound confs (record_endpoint w conf d) size' inside,
      )

  put-put : (a b : Driver) (d : Device S) → put_driver w b (put_driver w a d) ≡ put_driver w b d
  put-put a b d = ap (λ l. record d { drivers = l }) (set-set d.drivers w a b)

  set_endpoints-step :
      (conf : EndpointConfig) (confs : List EndpointConfig) (d : Device S) (driver : Driver)
      → IsBound d w conf
      → get_elem? d.drivers w ≡ some driver
      → set_endpoints (conf ∷ confs) d
        ≡ set_endpoints confs (put_driver w (set_endpoint conf driver) d)
  unfolding set_endpoints
  set_endpoints-step conf confs d driver first at = ground (arith, first, at)

  -- `InitializePhase3` hands every configuration to the driver of its endpoint.
  pub set_endpoints-Bound :
      (confs : List EndpointConfig) (d : Device S) (driver : Driver)
      → All (IsBound d w) confs
      → w < length d.drivers
      → get_elem? d.drivers w ≡ some driver
      → set_endpoints confs d ≡ done (put_driver w (set_all confs driver) d)
  unfolding set_endpoints
  set_endpoints-Bound [] d driver b inside at =
      ap (λ l. done (record d { drivers = l })) (sym (set-same d.drivers w driver at))
  set_endpoints-Bound (conf ∷ confs) d driver (first, b) inside at =
      set_endpoints-step conf confs d driver first at
      ∙ set_endpoints-Bound confs (put_driver w (set_endpoint conf driver) d)
          (set_endpoint conf driver) b
          (omega (arith, length-set d.drivers w (set_endpoint conf driver)))
          (get_elem?-set_self d.drivers w (set_endpoint conf driver) inside)
      ∙ ap done (put-put (set_endpoint conf driver) (set_all confs (set_endpoint conf driver)) d)
