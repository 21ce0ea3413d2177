-- ===== src/K8s/Value/Merge.antt =====
-- The JSON merge patch of RFC 7386: a member of the patch replaces the target's, or is merged into
-- it where it is a map, and a null removes it.
use hermes_cluster.Base.{String, Option, none, some}
use hermes_cluster.K8s.Value.{
  Value, null, bool, int, str, slice, object, Fields, end, field, get_field, set_field,
  remove_field,
}

-- the target where it is a map, and otherwise the empty one
unfoldable pub fields_of : Value → Fields
fields_of (object fs) = fs
fields_of v = end

-- a target that is not there is merged into like one that is no map
unfoldable pub or_null : Option Value → Value
or_null none = null
or_null (some v) = v

unfoldable mutual
  unfolding fields_of or_null

  pub merge : Value → Value → Value
  merge target (object ps) = object (merge_fields (fields_of target) ps)
  merge target null = null
  merge target (bool b) = bool b
  merge target (int n) = int n
  merge target (str t) = str t
  merge target (slice vs) = slice vs

  pub merge_fields : Fields → Fields → Fields
  merge_fields fs end = fs
  merge_fields fs (field k v ps) = put k v (merge (or_null (get_field k fs)) v) (merge_fields fs ps)

  pub put : String → Value → Value → Fields → Fields
  put k null merged fs = remove_field k fs
  put k v merged fs = set_field k merged fs
