-- ===== src/Vlab/Servers.antt =====
-- The servers of the default builder, pkg/hhfab/vlabbuilder.go: each is created and connected.
use Prim.Native.String.{◌++◌ as append}
use fabricator.Common.{ℕ, ◌+◌, ◌%◌, String, List, [], ◌∷◌}
use fabricator.Action.{Action, pure, ◌>>=◌, ◌>>◌}
use fabricator.Vlab.{ServerLink, ConnectionSpec, BuilderBase, Lab, LabApi}
use fabricator.Vlab.Text.{decimal2}
use fabricator.Vlab.Ports.{next_switch_port, next_server_port}
use fabricator.Vlab.Create.{create_server, create_connection}
use fabricator.Vlab.Loops.{collect}

unfoldable pub leaf_name : ℕ → String
unfolding decimal2
leaf_name n = append "leaf-" (decimal2 n)

unfoldable pub server_name : ℕ → String
unfolding decimal2
server_name n = append "server-" (decimal2 n)

-- `strings.Join(names, " ")`
abbrev pub join : List String → String
join [] = ""
join (x ∷ []) = x
join (x ∷ y ∷ xs) = append x (append " " (join (y ∷ xs)))

-- `S-<id> <kind> <leafs>`
unfoldable pub server_text : ℕ → String → String → String
unfolding decimal2
server_text id kind leafs = append "S-" (append (decimal2 id) (append kind leafs))

unfoldable pub server_link : BuilderBase → String → String → Action String Lab ServerLink
unfolding next_switch_port next_server_port
server_link b server leaf = next_server_port b server >>= λ s.
    (next_switch_port leaf >>= λ w. pure (record { server_port = s; switch_port = w }))

module _ (api : LabApi) (b : BuilderBase) where
  -- One server with a link to every leaf of the group.
  unfoldable pub eslag_server : List String → ℕ → Action String Lab ℕ
  unfolding create_server create_connection server_name server_text server_link collect
  eslag_server leafs id =
      create_server api (server_name id) (server_text id " ESLAG " (join leafs))
      >> (collect leafs (server_link b (server_name id)) >>= λ links.
          (create_connection api (ConnectionSpec.eslag links) >>= λ c. pure ((id + 1) % 256)))

  unfoldable pub unbundled_server : String → ℕ → Action String Lab ℕ
  unfolding create_server create_connection server_name server_text server_link
  unbundled_server leaf id =
      create_server api (server_name id) (server_text id " Unbundled " leaf)
      >> (server_link b (server_name id) leaf >>= λ link.
          (create_connection api (ConnectionSpec.unbundled link) >>= λ c. pure ((id + 1) % 256)))

  unfoldable pub bundled_server : String → ℕ → Action String Lab ℕ
  unfolding create_server create_connection server_name server_text server_link collect
  bundled_server leaf id =
      create_server api (server_name id) (server_text id " Bundled " leaf)
      >> (collect (leaf ∷ leaf ∷ []) (server_link b (server_name id)) >>= λ links.
          (create_connection api (ConnectionSpec.bundled links) >>= λ c. pure ((id + 1) % 256)))

  -- Two connections, to two leafs.
  unfoldable pub multi_homed_server : String → String → ℕ → Action String Lab ℕ
  unfolding create_server create_connection server_name server_text server_link
  multi_homed_server leaf1 leaf2 id =
      create_server api (server_name id)
        (server_text id " MultiHomed " (append leaf1 (append " + " leaf2)))
      >> (server_link b (server_name id) leaf1 >>= λ link1.
          (create_connection api (ConnectionSpec.unbundled link1) >>= λ c1.
          (server_link b (server_name id) leaf2 >>= λ link2.
          (create_connection api (ConnectionSpec.unbundled link2) >>= λ c2.
          pure ((id + 1) % 256)))))
