-- ===== src/Poa/Once.antt =====
-- An epoch that the node goes on serving becomes the validator set once.
use money_interoperability.Prelude.{ℕ, zero, suc, ◌≡◌, refl, ◌∷◌, ==_refl, some, none, String}
use money_interoperability.World.{World, History, ok, RawEpoch, get_epoch, tick, Reply}
use money_interoperability.Action.{Action, State, done, waiting, ◌>>=◌, ask}
use money_interoperability.Action.Writes.{writes}
use money_interoperability.Config.{Config}
use money_interoperability.Onemoney.Error.{Error}
use money_interoperability.Onemoney.Stream.{epoch_step, epoch_loop, epoch_stream}
use money_interoperability.Onemoney.Types.{Epoch, epoch_from_raw}
use money_interoperability.Poa as Poa
use money_interoperability.Poa.{process_epoch, relay_poa_events}

module _ (w : World) (url : String) (raw : RawEpoch)
    (serves : (h : History) → w.respond h (get_epoch url) ≡ ok raw) where
  -- After the first poll.
  abbrev pub polled : State → State
  polled s =
      let ticked : History = record { call = tick; reply = w.respond s.history tick } ∷ s.history in
      record s { history = record { call = get_epoch url; reply = ok raw } ∷ ticked }

  -- Further polls pass nothing on.
  epoch_loop_idle :
      (consume : Reply Error Epoch → Action Poa.Error (Unit {0})) (polls : ℕ) (s : State)
      → let (exit, t) = epoch_loop w polls url consume (some raw.epoch_id) s in
        (exit ≡ waiting) × (writes t.history ≡ writes s.history)
  unfolding epoch_loop epoch_step ◌>>=◌ ask
  epoch_loop_idle consume zero s = (refl, refl)
  epoch_loop_idle consume (suc polls) s =
      rw (serves, ==_refl raw.epoch_id) (epoch_loop_idle consume polls _)

  first_poll :
      (polls : ℕ) (s : State)
      → (process_epoch w (ok (epoch_from_raw raw)) (polled s)).0 ≡ done tt
      → let (exit, t) = epoch_loop w (suc polls) url (process_epoch w) none s in
        (exit ≡ waiting)
        × (writes t.history
            ≡ writes (process_epoch w (ok (epoch_from_raw raw)) (polled s)).1.history)
  unfolding epoch_loop epoch_step ◌>>=◌ ask
  first_poll polls s finishes = rw (serves, finishes) (epoch_loop_idle (process_epoch w) polls _)

  -- If the address of the node is valid, the node serves one epoch at every poll, and its first
  -- processing returns, then the relay of epochs keeps polling, and what it writes is what that
  -- one processing writes, however many polls follow.
  pub relay_poa_events-once :
      (config : Config) (polls : ℕ) (s : State)
      → w.join_url config.one_money_node_url "v1/governances/epoch" ≡ ok url
      → (process_epoch w (ok (epoch_from_raw raw)) (polled s)).0 ≡ done tt
      → let (exit, t) = relay_poa_events w (suc polls) config s in
        (exit ≡ waiting)
        × (writes t.history
            ≡ writes (process_epoch w (ok (epoch_from_raw raw)) (polled s)).1.history)
  unfolding relay_poa_events epoch_stream
  relay_poa_events-once config polls s valid finishes = rw valid (first_poll polls s finishes)
