-- ===== src/Kube/Meta.antt =====
-- Object metadata, and src/apply.rs up to `managed_metadata`.
use pangolin_gateway_api.Prelude.{[], ◌∷◌, Option, some, Text}
use pangolin_gateway_api.BTreeMap.{BTreeMap, text_ord, insert}
use pangolin_gateway_api.Config.{Config}

pub record ObjectMeta : Type 0 where
  pub name : Option Text
  pub namespace : Option Text
  pub labels : Option (BTreeMap Text Text)
  pub annotations : Option (BTreeMap Text Text)

unfoldable pub owner_labels : Config → Text → BTreeMap Text Text
unfolding insert
owner_labels cfg _name =
    insert cfg.instance_label_key cfg.instance_label_value
      (insert cfg.managed_label_key cfg.managed_label_value [])

-- The loop over the extra annotations.
add_annotations : BTreeMap Text Text → BTreeMap Text Text → BTreeMap Text Text
unfolding insert
add_annotations annotations [] = annotations
add_annotations annotations ((k, v) ∷ extra) = add_annotations (insert k v annotations) extra

unfoldable pub managed_metadata_with :
    Config → Text → BTreeMap Text Text → BTreeMap Text Text → ObjectMeta
unfolding add_annotations
managed_metadata_with cfg name labels extra_annotations = record {
  name = some name;
  namespace = some cfg.namespace;
  labels = some labels;
  annotations = some (
      add_annotations (insert cfg.managed_annotation_key cfg.managed_annotation_value [])
        extra_annotations);
}

unfoldable pub managed_metadata : Config → Text → BTreeMap Text Text → ObjectMeta
unfolding managed_metadata_with
managed_metadata cfg name labels = managed_metadata_with cfg name labels []
