-- ===== src/Warehouse/Connect/Tests.antt =====
-- A file that is held for two attempts, and one that is held for all.
use nordbank_data_platform.Common.{ℕ, String, ◌≡◌, refl, some, [], ◌∷◌, leb, if◌then◌else◌}
use nordbank_data_platform.Warehouse.Connect.{
  Opened, connected, refused, access_to, raised, busy, connect, default_patience, long_wait,
}
use nordbank_data_platform.Warehouse.Connect.Budget.{IsAccess, connect-IsAccess}

abbrev conflict : String
conflict = "IO Error: Could not set lock on file: Conflicting lock is held in python (PID 4711)"

abbrev released : ℕ → Opened ℕ
released n = if leb n 2 then refused conflict else connected 7

abbrev held : ℕ → Opened ℕ
held n = refused conflict

abbrev missing : ℕ → Opened ℕ
missing n = refused "no such file"

connects : connect default_patience "/w" released ≡ (access_to 7, 500 ∷ 1000 ∷ [])
unfolding connect
connects = refl

gives_up : connect (record { attempts = 3; base_delay = 500; max_delay = some 600 }) "/w" held ≡ (
  busy "warehouse at /w is locked by another process (held by pid 4711); gave up after 3 attempts",
  500 ∷ 600 ∷ [],
)
unfolding connect
gives_up = refl

raises : connect default_patience "/w" missing ≡ (raised "no such file", [])
unfolding connect
raises = refl

connect-IsAccess_example : IsAccess long_wait "/w" released (connect long_wait "/w" released)
connect-IsAccess_example = connect-IsAccess long_wait "/w" released
