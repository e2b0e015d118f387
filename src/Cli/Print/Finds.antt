-- ===== src/Cli/Print/Finds.antt =====
-- What `cmd_discover` of src/ddmp/__main__.py prints. `repr`, `str` and `json.dumps` are parameters.
use dometic_ddmp.Base.{suc, Option, none, some, List, [], ◌∷◌, ◌++◌, map}
use dometic_ddmp.Text.{Text, codes}
use dometic_ddmp.CoolerState.{decimal}
use dometic_ddmp.Base.Dict.{Dict}
use dometic_ddmp.Mdns.Collector.{MdnsService, sorted_texts}
use dometic_ddmp.Discovery.{DdmdReply, Discovered}
use dometic_ddmp.Cli.{Found, services, replies, coolers}
use dometic_ddmp.Cli.Print.{Line, out, complain, pad, join}

-- `d.ip or "?"`
unfoldable pub or_unknown : Option Text → Text
or_unknown none = codes "?"
or_unknown (some []) = codes "?"
or_unknown (some (c ∷ t)) = c ∷ t

-- One cooler in the output of `cmd_discover`.
unfoldable pub discovered_line : Discovered → Text
discovered_line d =
    pad 14 d.name
    ++ codes " id="
    ++ pad 12 (or_unknown (some d.cooler_id))
    ++ codes " ip="
    ++ pad 15 (or_unknown d.ip)
    ++ codes " port="
    ++ decimal (suc d.port) d.port
    ++ codes " fw="
    ++ or_unknown d.firmware
    ++ codes " sku="
    ++ or_unknown d.sku
    ++ codes " via="
    ++ join (codes ",") (sorted_texts d.sources)

-- More parameters: `repr` of a text, `str` of a list and of a `dict` of texts, and `json.dumps` of a
-- reply.
pub record FoundFormat : Type 0 where
  pub repr_text : Text → Text
  pub str_texts : List Text → Text
  pub str_dict : Dict Text Text → Text
  pub dumps_reply : DdmdReply → Text

module _ (format : FoundFormat) where
  -- One service in the output of `cmd_discover`, with `--mdns-only`.
  unfoldable pub service_line : MdnsService → Text
  service_line svc =
      format.repr_text svc.instance_name
      ++ codes " -> "
      ++ svc.hostname
      ++ codes ":"
      ++ decimal (suc svc.port) svc.port
      ++ codes " "
      ++ format.str_texts svc.addresses
      ++ codes " "
      ++ format.str_dict svc.txt

  -- What `cmd_discover` prints of what it has found.
  unfoldable pub discover_output : Found → List Line
  discover_output (services svcs) = map (λ svc. out (service_line svc)) svcs
  discover_output (replies rs) = map (λ r. out (format.dumps_reply r)) rs
  discover_output (coolers []) = complain (codes "no coolers found") ∷ []
  discover_output (coolers (d ∷ found)) = map (λ d. out (discovered_line d)) (d ∷ found)
