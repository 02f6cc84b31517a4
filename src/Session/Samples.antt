-- ===== src/Session/Samples.antt =====
-- A calm world for the examples: every call succeeds, no other thread is there, and the clock runs.
use pkcs11_provider.Base.{
  ℕ, suc, ◌+◌, ◌/◌, ◌%◌, ◌^◌, refl, true, some, [], ◌∷◌, arith, ltb, leb, if◌then◌else◌,
}
use pkcs11_provider.Session.Wait.{nanos_sec}
use pkcs11_provider.Session.Fetch.Reuse.{IsQuiet}
use pkcs11_provider.Session.Handle.Opens.{GivesHandles}
use pkcs11_provider.Session.Wait.Ticks.{Ticks, minus_one}
use pkcs11_provider.Session.{Host, Session, bare_session, Pool}

-- The time in this world, which stops long before `uint64_t` ends.
abbrev clock : ℕ → ℕ
clock w = if ltb w (2 ^ 62) then suc w else 2 ^ 62

abbrev pub calm : Host ℕ
calm = record {
  open_session = λ w slot flags callback. (0, suc w, w);
  get_session_info = λ w s. (0, record { info_state = 1; info_flags = 6 }, w);
  close_session = λ w s. w;
  clock_gettime = λ w. (0, clock w / nanos_sec, clock w % nanos_sec, w);
  nanosleep = λ w n. if leb (clock w + n) (clock (w + n)) then (0, w + n) else (minus_one, w);
  alloc = λ w. (true, w);
  mutex_init = λ w. (0, w);
  lock_pool = λ w. (0, w);
  lock_session = λ w i s. (0, s, w);
}

pub calm-Ticks : Ticks calm
calm-Ticks = record {
  now = clock;
  started = λ w. ground arith;
  small = λ w. ground arith;
  tells = λ w e. ground arith;
  reads = λ w. ground arith;
  opens = λ w slot flags callback. ground arith;
  sleeps = λ w n. ground arith;
}

pub calm-GivesHandles : GivesHandles calm
calm-GivesHandles w slot flags callback e = ground arith

pub calm-IsQuiet : IsQuiet calm
calm-IsQuiet = record {
  pool_locks = λ w. refl;
  session_locks = λ w i s. refl;
  session_stays = λ w i s. refl;
}

-- A free session that is referred to, one in use, and a broken one.
abbrev pub free_session : Session
free_session = record bare_session { handle = 7; refcnt = 1 }

abbrev pub used_session : Session
used_session = record bare_session { handle = 8; in_use = true; cb = some 3 }

abbrev pub broken_session : Session
broken_session = record bare_session { handle = 9; is_broken = true }

abbrev pub sample_pool : Pool
sample_pool = record {
  slotid = 5;
  max_sessions = 4;
  max_cached_sessions = 1;
  sessions = used_session ∷ free_session ∷ broken_session ∷ [];
}
