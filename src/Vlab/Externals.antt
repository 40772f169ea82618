-- ===== src/Vlab/Externals.antt =====
-- The externals of the default builder and their attachments, pkg/hhfab/vlabbuilder.go.
use Prim.Native.String.{◌++◌ as append}
use fabricator.Common.{
  ℕ, ◌+◌, ◌*◌, ◌%◌, ltb, leb, String, Bool, true, false, List, [], ◌∷◌, ◌++◌, Result, ok, err, ◌-◌,
  if◌then◌else◌,
}
use fabricator.Strings.{has_prefix}
use fabricator.Action.{Action, pure, lift, ◌>>=◌, ◌>>◌}
use fabricator.Vlab.{
  Device, ConnectionSpec, Connection, ExternalSpec, External, AttachmentSpec, Lab, LabApi,
}
use fabricator.Vlab.Text.{decimal, decimal2}
use fabricator.Vlab.Create.{create_external, create_external_attach}
use fabricator.Vlab.Options.{Options}
use fabricator.Vlab.Loops.{collect, each_with, count_from}

abbrev pub ext_asn : ℕ
ext_asn = 64102

abbrev too_many_pools : Bool → Bool → Result String (Unit {0})
too_many_pools true s = err "ExtBGPCount exceeds 9 (NAT pool CIDR scheme limit)"
too_many_pools false true =
    err "ExtStaticCount+ExtStaticProxyCount exceeds 9 (NAT pool CIDR scheme limit)"
too_many_pools false false = ok tt

unfoldable pub check_externals : Options → Result String (Unit {0})
check_externals o =
    too_many_pools (ltb 9 o.ext_bgp_count) (ltb 9 (o.ext_static_count + o.ext_static_proxy_count))

-- `192.168.<octet>.0/24`
unfoldable pub pool_text : ℕ → String
unfolding decimal
pool_text octet = append "192.168." (append (decimal octet) ".0/24")

-- The octet of the NAT pool of the BGP external with a number, and of a static one.
abbrev pub bgp_pool : ℕ → ℕ
bgp_pool i = 90 + i

abbrev pub static_pool : ℕ → ℕ
static_pool i = 100 + i

unfoldable pub bgp_external : ℕ → External
unfolding decimal decimal2 pool_text
bgp_external i =
    let rule = 1000 + 100 * (i - 1) in
    record {
      name = append "ext-bgp-" (decimal2 i);
      ipv4_namespace = "default";
      spec =
          ExternalSpec.bgp (append "65102:" (decimal rule))
            (append (decimal ext_asn) (append ":" (decimal rule)));
      annotations = ("hhfab.githedgehog.com/test-bgp-nat-pool", pool_text (bgp_pool i)) ∷ [];
    }

-- The first are proxies, which have no pool.
unfoldable pub static_external : ℕ → ℕ → External
unfolding decimal2 pool_text
static_external proxies i =
    let is_proxy = leb i proxies in
    record {
      name = append (if is_proxy then "ext-sp-" else "ext-snp-") (decimal2 i);
      ipv4_namespace = "default";
      spec = ExternalSpec.static ("0.0.0.0/0" ∷ []);
      annotations =
          if is_proxy
          then []
          else ("hhfab.githedgehog.com/test-static-nat-pool", pool_text (static_pool i)) ∷ [];
    }

-- `100.<octet>.<vlan>.<last>`
unfoldable pub attachment_ip : ℕ → ℕ → String → String
unfolding decimal
attachment_ip octet vlan last =
    append "100." (append (decimal octet) (append "." (append (decimal vlan) (append "." last))))

abbrev spec_of : ℕ → ℕ → Bool → ExternalSpec → AttachmentSpec
spec_of octet vlan is_proxy (ExternalSpec.static prefixes) =
    AttachmentSpec.static_attachment (attachment_ip octet vlan "1") vlan is_proxy
      (if is_proxy then "" else attachment_ip octet vlan "2/24")
spec_of octet vlan is_proxy (ExternalSpec.bgp inbound outbound) =
    AttachmentSpec.bgp_attachment vlan (attachment_ip octet vlan "1/24") ext_asn
      (attachment_ip octet vlan "6")

unfoldable pub attachment_spec : ℕ → ℕ → External → AttachmentSpec
unfolding attachment_ip
attachment_spec octet vlan ext = spec_of octet vlan (has_prefix ext.name "ext-sp") ext.spec

abbrev device_text : Device → String
device_text (Device.switch name) = name
device_text (Device.server name) = name
device_text (Device.gateway_node name) = name

-- The name of the switch of an external connection.
abbrev pub external_switch : ConnectionSpec → String
external_switch (ConnectionSpec.external_link p) = device_text p.device
external_switch _ = ""

module _ (api : LabApi) where
  -- The attachment of an external to a connection; the VLAN of the next one follows.
  unfoldable pub attach : ℕ → Connection → External → ℕ → Action String Lab ℕ
  unfolding create_external_attach attachment_spec
  attach octet conn ext vlan =
      create_external_attach api (record {
        name = append (external_switch conn.spec) (append "--" ext.name);
        external = ext.name;
        connection = conn.name;
        spec = attachment_spec octet vlan ext;
      })
      >> pure ((vlan + 10) % 65536)

  unfoldable pub attach_all : List External → Connection → ℕ → Action String Lab ℕ
  unfolding attach each_with
  attach_all externals conn octet =
      each_with externals (attach ((octet + 1) % 256) conn) 10 >>= λ v. pure ((octet + 1) % 256)

  unfoldable pub externals : Options → List Connection → Action String Lab (Unit {0})
  unfolding check_externals create_external bgp_external static_external attach_all collect
      each_with
  externals o conns =
      lift (check_externals o)
      >> (collect (count_from 1 o.ext_bgp_count) (λ i. create_external api (bgp_external i))
          >>= λ bgps.
              (collect (count_from 1 (o.ext_static_count + o.ext_static_proxy_count))
                  (λ i. create_external api (static_external o.ext_static_proxy_count i))
                >>= λ statics. (each_with conns (attach_all (bgps ++ statics)) 0 >>= λ n. pure tt)))
