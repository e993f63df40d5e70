-- ===== src/Xds/Connection.antt =====
-- Run, run, recvLoop and sdsRecvLoop of pkg/source/provisioner/xds.go: the connections to the sources,
-- and the goroutines that each leaves behind. Time does not count: the sleeps between two attempts
-- are left out, and an attempt ends as the network lets it end.
pub mod Resets
pub mod Sending
use amesh.Prelude.{
  ℕ, suc, ◌+◌, ◌-◌, ◌<◌, String, Bool, true, false, ◌≡◌, List, [], ◌∷◌, ◌++◌, Option, none, some,
  Result, ok, err, panic, ltb, if◌then◌else◌,
}
use amesh.Amesh.{AmeshProvisioner}

-- The part of the provisioner that Run changes, and its goroutines. `serving` is Run in its select
-- after run, and `stopped` Run that has returned. Of the receiving loops, `ads_live` and `sds_live`
-- are those of the current streams, and the two numbers count those of the streams closed since;
-- `resetting` has the errors that loops are about to send on resetCh. `translate_loops` and
-- `send_loops` count these loops, which end only with the process, and `resets` the resets received.
pub record Connection : Type 0 where
  pub ads_connected : Bool
  pub sds_connected : Bool
  pub ready : Bool
  pub serving : Bool
  pub stopped : Bool
  pub ads_live : Bool
  pub sds_live : Bool
  pub closed_ads : ℕ
  pub closed_sds : ℕ
  pub resetting : List String
  pub send_loops : ℕ
  pub translate_loops : ℕ
  pub sync_loops : ℕ
  pub resets : ℕ

abbrev pub new_connection : Connection
new_connection = record {
  ads_connected = false;
  sds_connected = false;
  ready = false;
  serving = false;
  stopped = false;
  ads_live = false;
  sds_live = false;
  closed_ads = 0;
  closed_sds = 0;
  resetting = [];
  send_loops = 0;
  translate_loops = 0;
  sync_loops = 0;
  resets = 0;
}

-- how far the network lets an attempt come
pub data Attempt : Type 0 where
  dial_fails ads_stream_fails sds_dial_fails sds_stream_fails connects : Attempt

-- xdsProvisioner.run: the first goroutine asks the Amesh provisioner for its channel, which panics
-- if there is none.
unfoldable pub run : ℕ → Option AmeshProvisioner → Connection → Result Connection
run sync_interval none c = panic
run sync_interval (some source) c = ok (record c {
  ready = true;
  serving = true;
  ads_live = true;
  sds_live = true;
  send_loops = c.send_loops + 1;
  translate_loops = c.translate_loops + 1;
  sync_loops = if ltb 0 sync_interval then c.sync_loops + 1 else c.sync_loops;
})

-- one round of the loop of Run up to its select
unfoldable pub try_connect : ℕ → Option AmeshProvisioner → Attempt → Connection → Result Connection
unfolding run
try_connect sync_interval source dial_fails c = ok c
try_connect sync_interval source ads_stream_fails c = ok (record c { ads_connected = true })
try_connect sync_interval source sds_dial_fails c = ok (record c { ads_connected = true })
try_connect sync_interval source sds_stream_fails c =
    ok (record c { ads_connected = true; sds_connected = true })
try_connect sync_interval source connects c =
    run sync_interval source (record c { ads_connected = true; sds_connected = true })

-- An error of recvLoop, of whatever kind: the loop sends it on resetCh and returns.
unfoldable pub ads_receive_error : String → Connection → Connection
ads_receive_error message c = record c {
  ads_connected = false;
  resetting = c.resetting ++ message ∷ [];
}

unfoldable pub sds_receive_error : String → Connection → Connection
sds_receive_error message c = record c {
  sds_connected = false;
  resetting = c.resetting ++ message ∷ [];
}

-- one more, if the loop is still running when its stream is closed
abbrev pub close_loop : Bool → ℕ → ℕ
close_loop live closed = if live then closed + 1 else closed

-- The branch of the select that receives from resetCh: `later` are the other errors. The cleanup
-- closes both streams, whose loops see it when they receive next.
unfoldable pub reset : List String → Connection → Connection
reset later c = record c {
  ads_connected = false;
  sds_connected = false;
  serving = false;
  ads_live = false;
  sds_live = false;
  closed_ads = close_loop c.ads_live c.closed_ads;
  closed_sds = close_loop c.sds_live c.closed_sds;
  resetting = later;
  resets = c.resets + 1;
}

-- A step of Run or of a receiving loop. A channel takes the errors in any order. When stop is closed
-- while Run is in its select, all of them end at once.
pub data Step (sync_interval : ℕ) (source : Option AmeshProvisioner) (c : Connection)
    : Connection → Type 0 where
  attempts :
      (attempt : Attempt) {d : Connection}
      → c.serving ≡ false
      → c.stopped ≡ false
      → try_connect sync_interval source attempt c ≡ ok d
      → Step sync_interval source c d
  ads_fails :
      (message : String)
      → c.stopped ≡ false
      → c.ads_live ≡ true
      → Step sync_interval source c (ads_receive_error message (record c { ads_live = false }))
  sds_fails :
      (message : String)
      → c.stopped ≡ false
      → c.sds_live ≡ true
      → Step sync_interval source c (sds_receive_error message (record c { sds_live = false }))
  closed_ads_fails :
      (message : String)
      → c.stopped ≡ false
      → 0 < c.closed_ads
      → Step sync_interval source c
          (ads_receive_error message (record c { closed_ads = c.closed_ads - 1 }))
  closed_sds_fails :
      (message : String)
      → c.stopped ≡ false
      → 0 < c.closed_sds
      → Step sync_interval source c
          (sds_receive_error message (record c { closed_sds = c.closed_sds - 1 }))
  resets_now :
      (before after : List String) (message : String)
      → c.serving ≡ true
      → c.stopped ≡ false
      → c.resetting ≡ before ++ message ∷ after
      → Step sync_interval source c (reset (before ++ after) c)
  stops :
      c.serving ≡ true
      → c.stopped ≡ false
      → Step sync_interval source c (record c { stopped = true; serving = false })

pub data Reach (sync_interval : ℕ) (source : Option AmeshProvisioner) : Connection → Type 0 where
  start : Reach sync_interval source new_connection
  later :
      {c d : Connection}
      → Reach sync_interval source c
      → Step sync_interval source c d
      → Reach sync_interval source d
