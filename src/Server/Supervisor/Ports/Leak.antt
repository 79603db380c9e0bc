-- ===== src/Server/Supervisor/Ports/Leak.antt =====
-- A failed arrival of src/mbdeploy/server.py, with a base port.
use mbdeploy.Base.{ℕ, ◌+◌, ◌≡◌, ◌≢◌, none, some, [], arith}
use mbdeploy.Text.{Text, Unicode}
use mbdeploy.Devices.Registry.{Entry}
use mbdeploy.Server.Serve.{raised}
use mbdeploy.Server.Supervisor.{Env, Settings, Supervisor, bind_both, alloc_ports}

module _ {W : Type 0} (u : Unicode) (env : Env u W) (cfg : Settings) where
  -- With a base port and no free pair, an arrival that binds its first listener and fails on the
  -- second changes only the next port, by two, and what the binds change: the pair does not become
  -- free, and the first socket is neither closed nor watched.
  failed_bind_leaks :
      (uid : Text) (e : Entry) (y : Supervisor W) (first : ℕ × ℕ) (v w : W)
      → cfg.base_port ≢ 0
      → y.port_freelist ≡ []
      → env.bind (some y.next_port) y.world ≡ (some first, v)
      → env.bind (some (y.next_port + 1)) v ≡ (none, w)
      → bind_both u env cfg uid e y ≡ (raised, record y { next_port = y.next_port + 2; world = w })
  unfolding bind_both alloc_ports
  failed_bind_leaks uid e y first v w based empty one two = ground (arith, based, empty, one, two)
