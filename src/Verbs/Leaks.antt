-- ===== src/Verbs/Leaks.antt =====
-- What the verbs helpers hold when they end.
use storefs.Prelude.{
  ℕ, ◌≡◌, ◌≢◌, Option, none, some, inl, inr, Option-cases, List, [], ◌∷◌, ◌++◌, arith,
}
use storefs.Prelude.Text.{Bytes}
use storefs.Os.{Resource, QpAttr, QpField, acquired, released, Trace, Os, pure, emit, ◌>>=◌, ◌>>◌}
use storefs.Os.Live.{live, sound, Holds, Outcome, good, Triple, bind, Neutral}
use storefs.Verbs.{
  open_found, first_wanted, v_open_device, modify_qp, v_query_gid, v_query_mtu_enum,
}

-- The contexts that an answer of `v_open_device` stands for.
abbrev pub contexts : Option ℕ → List Resource
contexts none = []
contexts (some c) = Resource.ctx c ∷ []

module _ (os : Os) where
  -- Where there is a list of devices, there is a device in it.
  abbrev pub HasDevice : Type 0
  HasDevice = (t : Trace) → os.get_device_list t ≢ some []

  pub Neutral-v_query_gid : (c port gid_index : ℕ) → Neutral (v_query_gid os c port gid_index)
  unfolding v_query_gid live sound
  Neutral-v_query_gid c port gid_index = record { keeps = λ xs t h. ground arith }

  pub Neutral-v_query_mtu_enum : (c port : ℕ) → Neutral (v_query_mtu_enum os c port)
  unfolding v_query_mtu_enum live sound
  Neutral-v_query_mtu_enum c port = record { keeps = λ xs t h. ground arith }

  pub modify_lem :
      (E : Trace → Type 0) (qp : ℕ) (attr : QpAttr) (mask : List QpField) (xs : List Resource)
      → Triple (Holds xs) (modify_qp os qp attr mask) (λ _. Holds xs) E
  unfolding modify_qp live sound
  modify_lem E qp attr mask xs = record { run = λ t h. good h }

  found_lem :
      (E : Trace → Type 0) (i : Option ℕ) (xs : List Resource)
      → Triple (Holds xs) (open_found os i) (λ found. Holds (contexts found ++ xs)) E
  unfolding open_found live sound
  found_lem E none xs = record { run = λ t h. good h }
  found_lem E (some i) xs = record {
    run = λ t h. elim (Option-cases (os.open_device t i)) [
      | inl e ↦ rw (e, open_found) (good h)
      | inr (c, e) ↦ rw (e, open_found) (good (ground arith))
    ];
  }

  devices_released :
      (E : Trace → Type 0) (found : Option ℕ) (xs : List Resource)
      → Triple
          (Holds (contexts found ++ (Resource.devices 0 ∷ xs)))
          (emit (released (Resource.devices 0)))
          (λ _. Holds (contexts found ++ xs))
          E
  unfolding live sound
  devices_released E none xs = record { run = λ t h. good (ground arith) }
  devices_released E (some c) xs = record { run = λ t h. good (ground arith) }

  opened_with :
      (E : Trace → Type 0) (i : Option ℕ) (xs : List Resource)
      → Triple
          (Holds (Resource.devices 0 ∷ xs))
          (do c ← open_found os i; emit (released (Resource.devices 0)); pure c)
          (λ found. Holds (contexts found ++ xs))
          E
  opened_with E i xs =
      bind (found_lem E i (Resource.devices 0 ∷ xs))
        λ c. bind (devices_released E c xs) λ _. record { run = λ t h. good h }

  listed :
      (E : Trace → Type 0) (dev_name : Option Bytes) (xs : List Resource) (t : Trace)
      (names : List Bytes)
      → os.get_device_list t ≡ some names
      → os.get_device_list t ≢ some []
      → Holds xs t
      → Outcome (λ found. Holds (contexts found ++ xs)) E (v_open_device os dev_name t)
  unfolding v_open_device live sound
  listed E dev_name xs t [] e ne h = absurd (ne e)
  listed E dev_name xs t (name ∷ names) e ne h =
      rw (e, v_open_device)
        ((opened_with E (first_wanted dev_name 0 (name ∷ names)) xs).run
          (acquired (Resource.devices 0) ∷ t) (ground arith))

  -- The device is opened, or is not, and the list of devices is given back.
  pub v_open_device_lem :
      (E : Trace → Type 0) (dev_name : Option Bytes) (xs : List Resource)
      → HasDevice
      → Triple (Holds xs) (v_open_device os dev_name) (λ found. Holds (contexts found ++ xs)) E
  unfolding v_open_device live sound
  v_open_device_lem E dev_name xs some_device = record {
    run = λ t h. elim (Option-cases (os.get_device_list t)) [
      | inl e ↦ rw (e, v_open_device) (good h)
      | inr (names, e) ↦ listed E dev_name xs t names e (some_device t) h
    ];
  }
