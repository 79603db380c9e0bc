-- ===== src/Console/Relay/Flow.antt =====
-- What `relay_socket` of src/mbdeploy/console.py delivers.
use mbdeploy.Base.{ℕ, ◌≡◌, refl, sym, ap, ◌∙◌, [], ◌∷◌, ◌++◌, append_assoc}
use mbdeploy.Text.{Text}
use mbdeploy.Console.Relay.{
  Pump, pump_tests, pump_reads, pump_sends, pump_ended, Main, main_tests, main_receives,
  main_writes, Relay, new_relay, Step, pump_stops, pump_goes_on, pump_hears_nothing, pump_hears,
  pump_loses_port, pump_sent, pump_loses_conn, main_stops, main_goes_on, main_hears_nothing,
  main_hears, main_loses_conn, main_wrote, main_loses_port, main_sets_stop, main_joined,
  main_gives_up, stopped_elsewhere, Run, here, next,
}

-- the bytes that the pump holds; once it has ended, those that it did not deliver
abbrev pub PumpHolds : Pump → Text → Type 0
PumpHolds pump_tests held = held ≡ []
PumpHolds pump_reads held = held ≡ []
PumpHolds (pump_sends bytes) held = held ≡ bytes
PumpHolds pump_ended held = Unit

abbrev pub MainHolds : Main → Text → Type 0
MainHolds main_tests held = held ≡ []
MainHolds main_receives held = held ≡ []
MainHolds (main_writes bytes) held = held ≡ bytes
MainHolds _ held = Unit

-- What came is what was passed on, what the thread holds, and what is still to come, in this order.
abbrev pub PumpFlow : Text → Relay → Type 0
PumpFlow bytes x =
    (held : Text) × PumpHolds x.pump held × (x.to_conn ++ (held ++ x.from_port) ≡ bytes)

abbrev pub MainFlow : Text → Relay → Type 0
MainFlow bytes x =
    (held : Text) × MainHolds x.main held × (x.to_port ++ (held ++ x.from_conn) ≡ bytes)

module _ (bytes : Text) where
  -- bytes that arrive are held, bytes that are passed on are held no more, or in part
  pub flow_heard :
      (done held coming got rest : Text)
      → held ≡ []
      → coming ≡ got ++ rest
      → done ++ (held ++ coming) ≡ bytes
      → done ++ (got ++ rest) ≡ bytes
  flow_heard done held coming got rest n f e = rw (n, f) at e

  pub flow_passed :
      (done held coming given : Text)
      → held ≡ given
      → done ++ (held ++ coming) ≡ bytes
      → (done ++ given) ++ ([] ++ coming) ≡ bytes
  flow_passed done held coming given h e = append_assoc done given coming ∙ (rw h at e)

  pub flow_lost :
      (done held coming given front lost : Text)
      → held ≡ given
      → given ≡ front ++ lost
      → done ++ (held ++ coming) ≡ bytes
      → (done ++ front) ++ (lost ++ coming) ≡ bytes
  flow_lost done held coming given front lost h f e =
      append_assoc done front (lost ++ coming)
      ∙ ap (λ l. done ++ l) (sym (append_assoc front lost coming))
      ∙ (rw (h, f) at e)

  Step-PumpFlow : {x y : Relay} → Step x y → PumpFlow bytes x → PumpFlow bytes y
  Step-PumpFlow (pump_stops p s) (held, h, e) = (held, tt, e)
  Step-PumpFlow (pump_goes_on p s) (held, h, e) = (held, rw p at h, e)
  Step-PumpFlow (pump_hears_nothing p) (held, h, e) = (held, rw p at h, e)
  Step-PumpFlow {x} (pump_hears b more rest p f) (held, h, e) =
      (b ∷ more, refl, flow_heard x.to_conn held x.from_port (b ∷ more) rest (rw p at h) f e)
  Step-PumpFlow (pump_loses_port p) (held, h, e) = (held, tt, e)
  Step-PumpFlow {x} (pump_sent d p) (held, h, e) =
      ([], refl, flow_passed x.to_conn held x.from_port d (rw p at h) e)
  Step-PumpFlow {x} (pump_loses_conn d front lost p f) (held, h, e) =
      (lost, tt, flow_lost x.to_conn held x.from_port d front lost (rw p at h) f e)
  Step-PumpFlow (main_stops m s) i = i
  Step-PumpFlow (main_goes_on m s) i = i
  Step-PumpFlow (main_hears_nothing m) i = i
  Step-PumpFlow (main_hears b more rest m f) i = i
  Step-PumpFlow (main_loses_conn m) i = i
  Step-PumpFlow (main_wrote d m) i = i
  Step-PumpFlow (main_loses_port d front lost m f) i = i
  Step-PumpFlow (main_sets_stop m) i = i
  Step-PumpFlow (main_joined m p) i = i
  Step-PumpFlow (main_gives_up m) i = i
  Step-PumpFlow (stopped_elsewhere s) i = i

  Step-MainFlow : {x y : Relay} → Step x y → MainFlow bytes x → MainFlow bytes y
  Step-MainFlow (main_stops m s) (held, h, e) = (held, tt, e)
  Step-MainFlow (main_goes_on m s) (held, h, e) = (held, rw m at h, e)
  Step-MainFlow (main_hears_nothing m) (held, h, e) = (held, rw m at h, e)
  Step-MainFlow {x} (main_hears b more rest m f) (held, h, e) =
      (b ∷ more, refl, flow_heard x.to_port held x.from_conn (b ∷ more) rest (rw m at h) f e)
  Step-MainFlow (main_loses_conn m) (held, h, e) = (held, tt, e)
  Step-MainFlow {x} (main_wrote d m) (held, h, e) =
      ([], refl, flow_passed x.to_port held x.from_conn d (rw m at h) e)
  Step-MainFlow {x} (main_loses_port d front lost m f) (held, h, e) =
      (lost, tt, flow_lost x.to_port held x.from_conn d front lost (rw m at h) f e)
  Step-MainFlow (main_sets_stop m) (held, h, e) = (held, tt, e)
  Step-MainFlow (main_joined m p) (held, h, e) = (held, tt, e)
  Step-MainFlow (main_gives_up m) (held, h, e) = (held, tt, e)
  Step-MainFlow (pump_stops p s) i = i
  Step-MainFlow (pump_goes_on p s) i = i
  Step-MainFlow (pump_hears_nothing p) i = i
  Step-MainFlow (pump_hears b more rest p f) i = i
  Step-MainFlow (pump_loses_port p) i = i
  Step-MainFlow (pump_sent d p) i = i
  Step-MainFlow (pump_loses_conn d front lost p f) i = i
  Step-MainFlow (stopped_elsewhere s) i = i

-- However the two threads of `relay_socket` interleave, each direction delivers the bytes in their
-- order, none twice: what came is what was passed on, then what the thread holds, then what is
-- still to come. A thread that is at the test of its loop or in a read holds nothing, and one that
-- writes holds just what it read last; only a thread whose loop is over may hold lost bytes.
pub relay-flow :
    (port_bytes conn_bytes : Text) {n : ℕ} {x : Relay}
    → Run (new_relay port_bytes conn_bytes) n x
    → PumpFlow port_bytes x × MainFlow conn_bytes x
relay-flow port_bytes conn_bytes here = (([], refl, refl), ([], refl, refl))
relay-flow port_bytes conn_bytes (next r s) =
    let (p, m) = relay-flow port_bytes conn_bytes r in
    (Step-PumpFlow port_bytes s p, Step-MainFlow conn_bytes s m)
