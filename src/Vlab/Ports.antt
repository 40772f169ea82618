-- ===== src/Vlab/Ports.antt =====
-- `nextSwitchPort` and `nextServerPort` of pkg/hhfab/vlabbuilder.go.
use fabricator.Common.{
  ℕ, ◌+◌, ◌%◌, ltb, leb, String, str_eq, Bool, false, List, [], ◌∷◌, if◌then◌else◌, ok,
}
use fabricator.Action.{Action}
use fabricator.Vlab.{Device, Port, BuilderBase, Lab}

abbrev pub same_device : Device → Device → Bool
same_device (Device.switch a) (Device.switch b) = str_eq a b
same_device (Device.server a) (Device.server b) = str_eq a b
same_device (Device.gateway_node a) (Device.gateway_node b) = str_eq a b
same_device _ _ = false

-- `ifaceTracker[name]`: 0 where there is none.
abbrev pub iface : List (Device × ℕ) → Device → ℕ
iface [] d = 0
iface ((e, n) ∷ t) d = if same_device e d then n else iface t d

unfoldable pub next_switch_port : String → Action String Lab Port
next_switch_port name s =
    let id = iface s.iface_tracker (Device.switch name) in
    let next = (id + (if leb 48 id then 4 else 1)) % 256 in
    (
      ok (record { device = Device.switch name; base = "E1/"; slot = (id + 1) % 256 }),
      record s {
        iface_tracker = (Device.switch name, next) ∷ s.iface_tracker;
        too_many = if ltb 76 next then name ∷ s.too_many else s.too_many;
      },
    )

abbrev pub port_base : BuilderBase → String
port_base b = if str_eq b.server_port_base "" then "enp2s" else b.server_port_base

unfoldable pub next_server_port : BuilderBase → String → Action String Lab Port
next_server_port b name s =
    let id = iface s.iface_tracker (Device.server name) in
    (
      ok (record { device = Device.server name; base = port_base b; slot = (id + 1) % 256 }),
      record s { iface_tracker = (Device.server name, (id + 1) % 256) ∷ s.iface_tracker },
    )
