-- ===== src/Lifecycle.antt =====
-- The process-wide objects of sources/core/src/hako_pro.cpp: how a process gets its controllers, and gives
-- them up. What is behind HakoMasterData and the configuration is the record `CorePort`, over a state `W`.
pub mod Retry
pub mod Ready
use hakoniwa_core_pro.Base.{
  ℕ, Bool, true, false, not, Option, none, some, if◌then◌else◌, maybe, Name, [], ◌∷◌,
}
use hakoniwa_core_pro.RuntimeError.{Thrown, Attempt, returns, throws, crashes}
use hakoniwa_core_pro.Session.{Session, Platform, create_session_memory}

-- `config.param`: its shm_type, if it is a string, and asset_timeout_usec, if it is a number.
pub record Config : Type 0 where
  pub shm_type : Option Name
  pub asset_timeout_usec : Option ℕ

-- The calls of hakoniwa-core-cpp: hako_config_load, with `none` where no file is found; init and load of
-- HakoMasterData; hako_shared_memory_create; what HakoProData finds in memory; HakoContext::is_same on
-- get_master_pid; destroy_memory and destroy of HakoMasterData.
pub record CorePort (W : Type 0) : Type 0 where
  pub config_load : W → Attempt (Option Config)
  pub init_master : Name → W → W × Attempt Unit
  pub load_master : Name → W → W × Attempt Bool
  pub shared_memory : Name → W → Attempt Session
  pub platform : W → Platform
  pub is_master_process : W → Bool
  pub destroy_pro_memory : W → W
  pub destroy_master : W → W

-- HakoMasterData: whether init or load has succeeded, its type of memory, and its timeout, if one was set.
pub record MasterData : Type 0 where
  pub is_ready : Bool
  pub shm_type : Name
  pub asset_timeout_usec : Option ℕ

-- The static pointers of hako_pro.cpp.
pub record Process : Type 0 where
  pub master_data : Option MasterData
  pub pro_data : Option Session
  pub master : Bool
  pub asset : Bool
  pub simevent : Bool

abbrev pub fresh_process : Process
fresh_process = record {
  master_data = none;
  pro_data = none;
  master = false;
  asset = false;
  simevent = false;
}

-- "shm"
abbrev pub shm : Name
shm = 115 ∷ 104 ∷ 109 ∷ []

-- The exceptions of a configuration without a string shm_type, and of HakoProData::init.
abbrev pub bad_config : Thrown
bad_config = Thrown.std_exception []

-- A step that yields a value or ends the function.
abbrev pub then_on : {S A B : Type 0} → S × Attempt A → (A → S → S × Attempt B) → S × Attempt B
then_on (s, returns a) k = k a s
then_on (s, throws x) k = (s, throws x)
then_on (s, crashes) k = (s, crashes)

-- HakoProData before its init.
abbrev pub uninitialized : Session
uninitialized = record {
  memory = none;
  is_attached = false;
  services = [];
  service_name_to_id = λ name. none;
}

abbrev pub new_master_data : MasterData
new_master_data = record { is_ready = false; shm_type = shm; asset_timeout_usec = none }

-- No configuration file: the defaults of hako::init.
abbrev pub default_config : Config
default_config = record { shm_type = some shm; asset_timeout_usec = none }

abbrev pub loaded_with : Name → Config → MasterData
loaded_with type c = record {
  is_ready = true;
  shm_type = type;
  asset_timeout_usec = c.asset_timeout_usec;
}

module _ {W : Type 0} (port : CorePort W) where
  abbrev pub State : Type 0
  State = Process × W

  abbrev pub set_master_data : MasterData → State → State
  set_master_data d (p, w) = (record p { master_data = some d }, w)

  abbrev pub set_pro_data : Session → State → State
  set_pro_data session (p, w) = (record p { pro_data = some session }, w)

  -- The type of memory in the configuration.
  abbrev pub shm_type_of : Config → Attempt Name
  shm_type_of c = maybe (throws bad_config) (λ type. returns type) c.shm_type

  -- HakoProData is made and its init called, unless it is there. It is there too where its init throws.
  unfoldable pub make_pro_data : Name → State → State × Attempt Unit
  make_pro_data type s =
      maybe
        (then_on (set_pro_data uninitialized s, port.shared_memory type s.1)
          λ session s'. (set_pro_data session s', returns tt))
        (λ there. (s, returns tt)) s.0.pro_data

  -- The branch of create_asset_controller and get_simevent_controller for a process without master data:
  -- `false` where they return `nullptr`.
  unfoldable pub load_core : State → State × Attempt Bool
  load_core s =
      let s1 = set_master_data new_master_data s in
      then_on (s1, port.config_load s1.1)
        λ config s2.
          maybe (s2, returns false)
            (λ c.
              then_on (s2, shm_type_of c)
                λ type s3.
                  let (w4, loaded) = port.load_master type s3.1 in
                  then_on ((s3.0, w4), loaded)
                    λ ok s4.
                      if not ok
                      then (s4, returns false)
                      else then_on (make_pro_data type (set_master_data (loaded_with type c) s4))
                          λ made s5. (s5, returns true))
            config

  -- The end of create_asset_controller: the extension of `pro_data_ptr` is registered.
  unfoldable pub register_extension : State → State × Attempt Bool
  register_extension (p, w) =
      let s : State = (record p { asset = true }, w) in
      maybe (s, crashes) (λ session. (s, returns true)) p.pro_data

  unfoldable pub create_asset_controller : State → State × Attempt Bool
  create_asset_controller (p, w) =
      if p.asset
      then ((p, w), returns true)
      else maybe
          (then_on (load_core (p, w))
            λ found s. if not found then (s, returns false) else register_extension s)
          (λ d. register_extension (p, w)) p.master_data

  abbrev pub set_simevent : State → State
  set_simevent (p, w) = (record p { simevent = true }, w)

  unfoldable pub get_simevent_controller : State → State × Attempt Bool
  get_simevent_controller (p, w) =
      if p.simevent
      then ((p, w), returns true)
      else maybe
          (then_on (load_core (p, w))
            λ found s. if not found then (s, returns false) else (set_simevent s, returns true))
          (λ d. (set_simevent (p, w), returns true)) p.master_data

  -- The first part of hako::init.
  unfoldable pub init_master_data : State → State × Attempt Unit
  init_master_data s =
      maybe
        (then_on (s, port.config_load s.1)
          λ config s1.
            let s2 = set_master_data new_master_data s1 in
            then_on (s2, maybe (returns shm) shm_type_of config)
              λ type s3.
                let (w4, done) = port.init_master type s3.1 in
                then_on ((s3.0, w4), done)
                  λ u s5. (
                    set_master_data (loaded_with type (maybe default_config (λ c. c) config)) s5,
                    returns tt,
                  ))
        (λ d. (s, returns tt)) s.0.master_data

  -- hako::init
  unfoldable pub init : State → State × Attempt Bool
  init s = then_on (init_master_data s) λ u s1.
      maybe
        (then_on (make_pro_data (maybe shm (λ d. d.shm_type) s1.0.master_data) s1) λ made s2.
          let (session, created) =
            create_session_memory (port.platform s2.1)
              (maybe uninitialized (λ x. x) s2.0.pro_data) in
          (set_pro_data session s2, returns created))
        (λ there. (s1, returns true)) s1.0.pro_data

  -- create_master; it asserts that there is master data.
  unfoldable pub create_master : State → State × Attempt Bool
  create_master (p, w) =
      maybe ((p, w), crashes) (λ d. ((record p { master = true }, w), returns true)) p.master_data

  -- hako::destroy
  unfoldable pub destroy : State → State × Attempt Unit
  destroy (p, w) =
      let p1 = record p { master = false } in
      maybe ((p1, w), crashes)
        (λ d.
          if not (port.is_master_process w)
          then ((p1, w), returns tt)
          else let w1 = maybe w (λ session. port.destroy_pro_memory w) p.pro_data in
            ((fresh_process, port.destroy_master w1), returns tt))
        p.master_data
