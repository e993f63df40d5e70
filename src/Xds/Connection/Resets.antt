-- ===== src/Xds/Connection/Resets.antt =====
-- How the resets of pkg/source/provisioner/xds.go go on: each connection has two receiving loops, each
-- of which ends with an error for resetCh, and each reset takes one of them.
use amesh.Prelude.{
  ℕ, suc, ◌+◌, ◌*◌, ◌-◌, ◌<◌, String, Bool, true, false, ◌≡◌, refl, List, [], ◌∷◌, ◌++◌, Option,
  none, some, ok, ok_injective, length, length-append, ltb, ◌⊎◌, arith, inl, inr, Bool-cases,
  if◌then◌else◌,
}
use amesh.Amesh.{AmeshProvisioner}
use amesh.Xds.Connection.{
  Connection, Attempt, dial_fails, ads_stream_fails, sds_dial_fails, sds_stream_fails, connects,
  run, try_connect, ads_receive_error, sds_receive_error, reset, Step, attempts, ads_fails,
  sds_fails, closed_ads_fails, closed_sds_fails, resets_now, stops, Reach, start, later,
}

abbrev pub one_if : Bool → ℕ
one_if live = if live then 1 else 0

List-cases :
    (xs : List String) → (xs ≡ []) ⊎ ((x : String) × (rest : List String) × (xs ≡ x ∷ rest))
List-cases [] = inl refl
List-cases (x ∷ rest) = inr (x, rest, refl)

-- the receiving loops that have not reset a connection yet
abbrev pub loops : Connection → ℕ
loops c = one_if c.ads_live + one_if c.sds_live + c.closed_ads + c.closed_sds + length c.resetting

-- Two loops for each connection, of which each reset has taken one.
pub record IsCounted (c : Connection) : Type 0 where
  pub loops_twice : c.resets + loops c ≡ 2 * c.translate_loops
  pub connected : one_if c.serving + one_if c.stopped + c.resets ≡ c.translate_loops
  pub idle : c.serving ≡ false → c.stopped ≡ false → (c.ads_live ≡ false) × (c.sds_live ≡ false)

flags-IsCounted :
    (c : Connection) (ads sds : Bool)
    → IsCounted c
    → IsCounted (record c { ads_connected = ads; sds_connected = sds })
flags-IsCounted c ads sds h = record {
  loops_twice = h.loops_twice;
  connected = h.connected;
  idle = h.idle;
}

try_connect-IsCounted :
    (sync_interval : ℕ) (source : Option AmeshProvisioner) (attempt : Attempt) (c d : Connection)
    → c.serving ≡ false
    → c.stopped ≡ false
    → try_connect sync_interval source attempt c ≡ ok d
    → IsCounted c
    → IsCounted d
unfolding try_connect run
try_connect-IsCounted sync_interval source dial_fails c d s t e h = rw (← ok_injective e) h
try_connect-IsCounted sync_interval source ads_stream_fails c d s t e h =
    rw (← ok_injective e) (flags-IsCounted c true c.sds_connected h)
try_connect-IsCounted sync_interval source sds_dial_fails c d s t e h =
    rw (← ok_injective e) (flags-IsCounted c true c.sds_connected h)
try_connect-IsCounted sync_interval source sds_stream_fails c d s t e h =
    rw (← ok_injective e) (flags-IsCounted c true true h)
try_connect-IsCounted sync_interval none connects c d s t e h = absurd cc
try_connect-IsCounted sync_interval (some source) connects c d s t e h =
    rw (← ok_injective e) (record {
      loops_twice = ground (arith, h.loops_twice, h.idle s t);
      connected = ground (arith, h.connected);
      idle = λ p q. absurd (cc p);
    })

module _ (sync_interval : ℕ) (source : Option AmeshProvisioner) where
  reset-IsCounted :
      (c : Connection) (before after : List String) (message : String)
      → c.serving ≡ true
      → c.stopped ≡ false
      → c.resetting ≡ before ++ message ∷ after
      → IsCounted c
      → IsCounted (reset (before ++ after) c)
  unfolding reset
  reset-IsCounted c before after message s t e h = record {
    loops_twice = ground (
      arith,
      h.loops_twice,
      e,
      length-append before after,
      length-append before (message ∷ after),
    );
    connected = ground (arith, h.connected);
    idle = λ p q. (refl, refl);
  }

  step-IsCounted : {c d : Connection} → Step sync_interval source c d → IsCounted c → IsCounted d
  unfolding ads_receive_error sds_receive_error
  step-IsCounted (attempts attempt s t e) h =
      try_connect-IsCounted sync_interval source attempt _ _ s t e h
  step-IsCounted {c = c} (ads_fails message t l) h = record {
    loops_twice = ground (arith, h.loops_twice, length-append c.resetting (message ∷ []));
    connected = h.connected;
    idle = λ p q. (refl, (h.idle p q).1);
  }
  step-IsCounted {c = c} (sds_fails message t l) h = record {
    loops_twice = ground (arith, h.loops_twice, length-append c.resetting (message ∷ []));
    connected = h.connected;
    idle = λ p q. ((h.idle p q).0, refl);
  }
  step-IsCounted {c = c} (closed_ads_fails message t l) h = record {
    loops_twice = ground (arith, h.loops_twice, length-append c.resetting (message ∷ []));
    connected = h.connected;
    idle = h.idle;
  }
  step-IsCounted {c = c} (closed_sds_fails message t l) h = record {
    loops_twice = ground (arith, h.loops_twice, length-append c.resetting (message ∷ []));
    connected = h.connected;
    idle = h.idle;
  }
  step-IsCounted {c = c} (resets_now before after message s t e) h =
      reset-IsCounted c before after message s t e h
  step-IsCounted (stops s t) h = record {
    loops_twice = h.loops_twice;
    connected = ground (arith, h.connected);
    idle = λ p q. absurd (cc q);
  }

  Reach-IsCounted : {c : Connection} → Reach sync_interval source c → IsCounted c
  Reach-IsCounted start = record {
    loops_twice = refl;
    connected = refl;
    idle = λ p q. (refl, refl);
  }
  Reach-IsCounted (later run step) = step-IsCounted step (Reach-IsCounted run)

  -- A connection that is closed by a reset although both of its own loops still run: at once, or
  -- after a loop of an earlier stream has seen that its stream is closed.
  abbrev pub IsDoomed : Connection → Type 0
  IsDoomed c =
      (b d : Connection) × ((b ≡ c) ⊎ Step sync_interval source c b)
      × (b.ads_live ≡ true)
      × (b.sds_live ≡ true)
      × Step sync_interval source b d
      × (d.serving ≡ false)
      × (d.resets ≡ suc c.resets)

  reset_now-IsDoomed :
      (c b : Connection) (message : String) (rest : List String)
      → (b ≡ c) ⊎ Step sync_interval source c b
      → b.ads_live ≡ true
      → b.sds_live ≡ true
      → b.serving ≡ true
      → b.stopped ≡ false
      → b.resetting ≡ message ∷ rest
      → b.resets ≡ c.resets
      → IsDoomed c
  unfolding reset
  reset_now-IsDoomed c b message rest how la ls s t e r =
      (b, reset rest b, how, la, ls, resets_now [] rest message s t e, refl, ground (arith, r))

  left-IsDoomed :
      (c : Connection)
      → c.serving ≡ true
      → c.stopped ≡ false
      → c.ads_live ≡ true
      → c.sds_live ≡ true
      → 0 < c.closed_ads + c.closed_sds + length c.resetting
      → IsDoomed c
  unfolding ads_receive_error sds_receive_error
  left-IsDoomed c s t la ls h = elim (List-cases c.resetting) [
    | inr (message, rest, e) ↦ reset_now-IsDoomed c c message rest (inl refl) la ls s t e refl
    | inl e ↦ elim (Bool-cases (ltb 0 c.closed_ads)) [
      | inl p ↦
          let b = ads_receive_error "EOF" (record c { closed_ads = c.closed_ads - 1 }) in
          reset_now-IsDoomed c b "EOF" [] (inr (closed_ads_fails "EOF" t (ground arith))) la ls s t
            (rw e refl) refl
      | inr p ↦
          let b = sds_receive_error "EOF" (record c { closed_sds = c.closed_sds - 1 }) in
          reset_now-IsDoomed c b "EOF" [] (inr (closed_sds_fails "EOF" t (ground arith))) la ls s t
            (rw e refl) refl
    ]
  ]

  -- After the first reset, no connection is safe any more: while both of its loops run, a loop of an
  -- earlier stream has sent an error on resetCh or can do so, and Run then closes the connection.
  -- Moreover each connection has left its goroutine with translateLoop behind.
  pub Reach-IsDoomed :
      {c : Connection}
      → Reach sync_interval source c
      → c.serving ≡ true
      → c.stopped ≡ false
      → c.ads_live ≡ true
      → c.sds_live ≡ true
      → 0 < c.resets
      → IsDoomed c × (c.translate_loops ≡ suc c.resets)
  unfolding ads_receive_error sds_receive_error
  Reach-IsDoomed {c = c} run s t la ls r =
      let h = Reach-IsCounted run in
      let left : c.closed_ads + c.closed_sds + length c.resetting ≡ c.resets =
        ground (arith, h.loops_twice, h.connected) in
      (left-IsDoomed c s t la ls (ground (arith, left)), ground (arith, h.connected))
