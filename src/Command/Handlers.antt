-- ===== src/Command/Handlers.antt =====
-- The command handlers of sources/command/src/hako_cmd.cpp, and HakoMetaDumper::parse of
-- sources/command/src/dump_meta.cpp, which `jmeta` calls.
use hakoniwa_core_pro.Base.{
  ℕ, zero, suc, ℤ, Bool, false, not, Option, List, [], ◌∷◌, ◌++◌, ltb, if◌then◌else◌, maybe, Name,
  name_eq,
}
use hakoniwa_core_pro.RuntimeError.{Thrown, Attempt, returns, throws, crashes}
use hakoniwa_core_pro.Lifecycle.{then_on}
use hakoniwa_core_pro.Probe.{ProbeConfig, mmap}
use hakoniwa_core_pro.Service.{length}
use hakoniwa_core_pro.Command.{
  Command, start, stop, reset, status, ls, pmeta, plog, jmeta, dump, restore, real_cid, Bytes,
  Shown, nothing, lines, bytes, number, hako_status, nth, stoi,
}

-- What the handlers call: the controller of hakoniwa-core-cpp, with `none` for a size of (size_t)(-1); malloc
-- with the bytes that it happens to leave; open and read on a file, with `none` where one of them fails; and
-- for `jmeta` the configuration, the file of the master and the JSON text of its content.
pub record ControlPort (W : Type 0) : Type 0 where
  pub start : W → W × Attempt Bool
  pub stop : W → W × Attempt Bool
  pub reset : W → W × Attempt Bool
  pub state : W → W × Attempt ℕ
  pub assets : W → W × Attempt (List Name)
  pub print_master_data : W → W × Attempt Unit
  pub print_memory_log : W → W × Attempt Unit
  pub pdu_size : ℤ → W → W × Attempt (Option ℕ)
  pub read_pdu : ℤ → ℕ → W → W × Attempt (Option Bytes)
  pub write_pdu : ℤ → Bytes → W → W × Attempt Bool
  pub write_stdout : Bytes → W → Bool
  pub get_pdu_channel : Name → ℤ → W → W × Attempt ℤ
  pub malloc : ℕ → W → Option Bytes
  pub read_file : Name → ℕ → W → Option Bytes
  pub config : W → Option ProbeConfig
  pub meta_size : ℕ
  pub open_meta : Name → W → Option (ℕ × Option Bytes)
  pub dump_json : Bytes → Name

-- An exit code, and what is shown.
abbrev pub Reply : Type 0
Reply = ℕ × Shown

abbrev pub Handler : Type 0 → Type 0
Handler W = W → W × Attempt Reply

abbrev pub reply : {W : Type 0} → ℕ → Shown → Handler W
reply code shown w = (w, returns (code, shown))

-- The bytes of a buffer after `content` has been read into it.
abbrev pub drop : ℕ → Bytes → Bytes
drop zero buffer = buffer
drop (suc n) [] = []
drop (suc n) (b ∷ buffer) = drop n buffer

abbrev pub read_into : Bytes → Bytes → Bytes
read_into content buffer = content ++ drop (length content) buffer

abbrev pub runtime_error : Thrown
runtime_error = Thrown.std_exception []

module _ {W : Type 0} (port : ControlPort W) where
  -- do_start, do_stop, do_reset: the answer of the controller is not used.
  unfoldable pub do_start : Handler W
  do_start w = then_on (port.start w) λ ok. reply 0 nothing

  unfoldable pub do_stop : Handler W
  do_stop w = then_on (port.stop w) λ ok. reply 0 nothing

  unfoldable pub do_reset : Handler W
  do_reset w = then_on (port.reset w) λ ok. reply 0 nothing

  -- do_status; an index past the end of the vector is undefined behaviour.
  unfoldable pub do_status : Handler W
  do_status w = then_on (port.state w) λ state w'.
      maybe (w', crashes) (λ name. reply 0 (lines (name ∷ [])) w') (nth hako_status state)

  unfoldable pub do_ls : Handler W
  do_ls w = then_on (port.assets w) λ asset_list. reply 0 (lines asset_list)

  unfoldable pub do_pmeta : Handler W
  do_pmeta w = then_on (port.print_master_data w) λ u. reply 0 nothing

  unfoldable pub do_plog : Handler W
  do_plog w = then_on (port.print_memory_log w) λ u. reply 0 nothing

  -- HakoMetaDumper::parse from the path on
  unfoldable pub parse_file : Option (ℕ × Option Bytes) → Attempt Bytes
  parse_file file =
      maybe (throws runtime_error)
        (λ (size, content).
          if ltb size port.meta_size
          then throws runtime_error
          else maybe (throws runtime_error) (λ read. returns read) content)
        file

  -- HakoMetaDumper::parse; the path is the directory of the configuration.
  unfoldable pub parse : W → Attempt Bytes
  parse w =
      maybe (throws runtime_error)
        (λ config.
          if not (maybe false (λ type. name_eq type mmap) config.shm_type)
          then throws runtime_error
          else maybe (throws runtime_error) (λ directory. parse_file (port.open_meta directory w))
              config.core_mmap_path)
        (port.config w)

  unfoldable pub do_jmeta : Handler W
  do_jmeta w = then_on (w, parse w) λ content. reply 0 (lines (port.dump_json content ∷ []))

  -- The parts of do_dump (of which a failure of `write` is only reported) and do_restore once the channel is known.
  unfoldable pub dump_channel : ℤ → Handler W
  dump_channel channel_id w = then_on (port.pdu_size channel_id w) λ size w1.
      maybe (reply 1 nothing w1)
        (λ n.
          maybe (reply 1 nothing w1)
            (λ buffer. then_on (port.read_pdu channel_id n w1) λ ret.
              maybe (reply 1 nothing)
                (λ data_read w2.
                  reply 0 (if port.write_stdout data_read w2 then bytes data_read else nothing) w2)
                ret)
            (port.malloc n w1))
        size

  unfoldable pub restore_channel : ℤ → Name → Handler W
  restore_channel channel_id restore_file w = then_on (port.pdu_size channel_id w) λ size w1.
      maybe (reply 1 nothing w1)
        (λ n.
          maybe (reply 1 nothing w1)
            (λ buffer.
              maybe (reply 1 nothing w1)
                (λ content.
                  then_on (port.write_pdu channel_id (read_into content buffer) w1)
                    λ ok. reply (if ok then 0 else 1) nothing)
                (port.read_file restore_file n w1))
            (port.malloc n w1))
        size

  -- do_dump, do_restore and do_real_cid, on the arguments after the command's name
  unfoldable pub do_dump : List Name → Handler W
  do_dump [] w = reply 1 nothing w
  do_dump (channel ∷ args) w = then_on (w, stoi channel) λ channel_id. dump_channel channel_id

  unfoldable pub do_restore : List Name → Handler W
  do_restore [] w = reply 1 nothing w
  do_restore (channel ∷ []) w = reply 1 nothing w
  do_restore (channel ∷ restore_file ∷ args) w =
      then_on (w, stoi channel) λ channel_id. restore_channel channel_id restore_file

  unfoldable pub do_real_cid : List Name → Handler W
  do_real_cid [] w = reply 1 nothing w
  do_real_cid (asset_name ∷ []) w = reply 1 nothing w
  do_real_cid (asset_name ∷ channel ∷ args) w =
      then_on (w, stoi channel)
        λ channel_id w1.
          then_on (port.get_pdu_channel asset_name channel_id w1) λ cid. reply 0 (number cid)

  -- `it->second`
  unfoldable pub handle : Command → List Name → Handler W
  handle start args = do_start
  handle stop args = do_stop
  handle reset args = do_reset
  handle status args = do_status
  handle ls args = do_ls
  handle pmeta args = do_pmeta
  handle plog args = do_plog
  handle jmeta args = do_jmeta
  handle dump args = do_dump args
  handle restore args = do_restore args
  handle real_cid args = do_real_cid args
