-- ===== src/Poa/Stopping.antt =====
-- The relay of epochs ends with the first epoch that cannot be fetched.
use money_interoperability.Prelude.{ℕ, suc, ◌≡◌, refl, String}
use money_interoperability.World.{World, Fault, History, ok, err, get_epoch}
use money_interoperability.Action.{State, done, ◌>>=◌, ask}
use money_interoperability.Config.{Config}
use money_interoperability.Onemoney.Stream.{epoch_step, epoch_loop, epoch_stream}
use money_interoperability.Poa.{process_epoch, relay_poa_events}

-- If the address of the node is valid and the fetch of an epoch fails, the relay of epochs returns
-- without an error at its first poll, however many polls are left.
pub relay_poa_events-stops :
    (w : World) (config : Config) (url : String) (e : Fault) (polls : ℕ) (s : State)
    → w.join_url config.one_money_node_url "v1/governances/epoch" ≡ ok url
    → ((h : History) → w.respond h (get_epoch url) ≡ err e)
    → (relay_poa_events w (suc polls) config s).0 ≡ done tt
unfolding relay_poa_events epoch_stream epoch_loop epoch_step process_epoch ◌>>=◌ ask
relay_poa_events-stops w config url e polls s valid fails = rw (valid, fails) refl
