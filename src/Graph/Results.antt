-- ===== src/Graph/Results.antt =====
-- The results of the graph queries: rmw_dps_cpp/src/rmw_node_info_and_types.cpp and
-- rmw_dps_cpp/src/rmw_node_names.cpp. What rcutils and rmw return is a parameter: `strdup k` says whether the
-- k-th copy of a string of the call succeeds (a copy ends before the first NUL), `array_init k` is the return code of the
-- rcutils_string_array_init before it. Finalised arrays are empty. `none` as the result of a call is a
-- read out of range or the dereference of a null pointer.
pub mod Copies
use rmw_dps.Prelude.{
  ℕ, zero, suc, ◌+◌, Bool, true, false, not, ◌&&◌, List, [], ◌∷◌, Option, none, some, if◌then◌else◌,
  map, length,
}
use rmw_dps.Text.{Text, c_str}
use rmw_dps.TextMap.{TextMap, keys}
use rmw_dps.Rmw.{RmwRet, is_ok, ok, error, timeout, invalid_argument, bad_alloc, Handle}
use rmw_dps.Discovery.Topics.{Node}
use rmw_dps.Discovery.NodeListener.{NodeInfo}
use rmw_dps.Graph.{
  NamesAndTypes, get_discovered_nodes, get_subscriber_names_and_types_by_node,
  get_publisher_names_and_types_by_node, get_service_names_and_types_by_node,
  get_client_names_and_types_by_node, get_topic_names_and_types, get_service_names_and_types,
}
use rmw_dps.Graph.Demangle.{demangle_if_ros_type, demangle_service_type_only}

-- A loop that copies: how many strings are copied and the copies, or the code of the failure.
pub data Copied (A : Type 0) : Type 0 where
  copied : ℕ → A → Copied A
  failed : RmwRet → Copied A
  out_of_range : Copied A

-- rmw_names_and_types_t
abbrev pub Out : Type 0
Out = List (Text × List Text)

module _ (strdup : ℕ → Bool) (array_init : ℕ → RmwRet) where
  -- `for (const auto & type : …)`
  unfoldable pub copy_types : (Text → Option Text) → ℕ → List Text → Copied (List Text)
  copy_types demangle_type k [] = copied k []
  copy_types demangle_type k (type_name ∷ names) = elim (demangle_type type_name) [
    | none ↦ out_of_range
    | some text ↦
        let rest = copy_types demangle_type (suc k) names in
        if strdup k
        then elim rest [
          | copied j texts ↦ copied j (c_str text ∷ texts)
          | failed ret ↦ failed ret
          | out_of_range ↦ out_of_range
        ]
        else failed bad_alloc
  ]

  -- `for (const auto & topic_n_types : topics)`
  unfoldable pub copy_topics : (Text → Option Text) → ℕ → NamesAndTypes → Copied Out
  copy_topics demangle_type k [] = copied k []
  copy_topics demangle_type k ((topic, types) ∷ topics) =
      let first = copy_types demangle_type (suc k) (keys types) in
      let rest = λ (j : ℕ). copy_topics demangle_type j topics in
      if strdup k
      then if is_ok (array_init (suc k))
        then elim first [
          | copied j texts ↦ elim (rest j) [
            | copied i out ↦ copied i ((c_str topic, texts) ∷ out)
            | failed ret ↦ failed ret
            | out_of_range ↦ out_of_range
          ]
          | failed ret ↦ failed ret
          | out_of_range ↦ out_of_range
        ]
        else failed (array_init (suc k))
      else failed bad_alloc

  -- _copy_data_to_results; `out` is what the results hold before.
  unfoldable pub copy_data_to_results :
      RmwRet → (Text → Option Text) → Out → NamesAndTypes → Option (RmwRet × Out)
  copy_data_to_results names_init demangle_type out [] = some (ok, out)
  copy_data_to_results names_init demangle_type out (topic ∷ topics) =
      if is_ok names_init
      then elim (copy_topics demangle_type 0 (topic ∷ topics)) [
        | copied k results ↦ some (ok, results)
        | failed ret ↦ some (ret, [])
        | out_of_range ↦ none
      ]
      else some (names_init, out)

  -- The loop of rmw_get_node_names: both copies are made before either is looked at.
  unfoldable pub copy_nodes : ℕ → List Node → Copied (List Text × List Text)
  copy_nodes k [] = copied k ([], [])
  copy_nodes k (node ∷ nodes) =
      let rest = copy_nodes (suc (suc k)) nodes in
      if strdup k && strdup (suc k)
      then elim rest [
        | copied j (names, namespaces) ↦
            copied j (c_str node.name ∷ names, c_str node.namespace_ ∷ namespaces)
        | failed ret ↦ failed ret
        | out_of_range ↦ out_of_range
      ]
      else failed bad_alloc

  -- rmw_get_node_names; `names_zero` and `namespaces_zero` are the checks of the two arrays, of which
  -- `names` and `namespaces` are the contents before. The array_init calls are 0 and 1.
  unfoldable pub rmw_get_node_names :
      Option (Handle NodeInfo)
      → RmwRet
      → RmwRet
      → List Text × List Text
      → Option (RmwRet × (List Text × List Text))
  rmw_get_node_names none names_zero namespaces_zero out = some (error, out)
  rmw_get_node_names (some node) names_zero namespaces_zero out =
      if is_ok names_zero && (is_ok namespaces_zero && node.ours)
      then elim node.data_ [
        | none ↦ none
        | some impl ↦
            if is_ok (array_init 0) && is_ok (array_init 1)
            then elim (copy_nodes 0 (get_discovered_nodes impl.discovered_nodes)) [
              | copied k results ↦ some (ok, results)
              | failed ret ↦ some (bad_alloc, ([], []))
              | out_of_range ↦ none
            ]
            else some (bad_alloc, ([], []))
      ]
      else some (error, out)

-- _validate_input, without and with a node's name; `check_zero` is the check of the results.
unfoldable pub validate_input : Bool → Option (Handle NodeInfo) → RmwRet → RmwRet
validate_input false handle check_zero = invalid_argument
validate_input true none check_zero = invalid_argument
validate_input true (some handle) check_zero = check_zero

unfoldable pub validate_input_by_node :
    Bool → Option (Handle NodeInfo) → Option Text → Option Text → RmwRet → RmwRet
unfolding validate_input
validate_input_by_node allocator node none node_namespace check_zero =
    let ret = validate_input allocator node check_zero in
    if is_ok ret then invalid_argument else ret
validate_input_by_node allocator node (some name) none check_zero =
    let ret = validate_input allocator node check_zero in
    if is_ok ret then invalid_argument else ret
validate_input_by_node allocator node (some name) (some namespace_) check_zero =
    validate_input allocator node check_zero

-- The arguments of a query.
pub record Query : Type 0 where
  pub node : Option (Handle NodeInfo)
  pub allocator : Bool
  pub check_zero : RmwRet
  pub names_init : RmwRet
  pub out : Out

module _ (strdup : ℕ → Bool) (array_init : ℕ → RmwRet)
    (find_and_replace : Text → Text → Text → Text) (q : Query) where
  -- The end of all six functions: the listener is asked and what it gives is copied.
  unfoldable pub answer :
      (Text → Option Text) → (TextMap Node → NamesAndTypes) → Option (RmwRet × Out)
  answer demangle_type ask = elim q.node [
    | none ↦ none
    | some handle ↦ elim handle.data_ [
      | none ↦ none
      | some impl ↦
          copy_data_to_results strdup array_init q.names_init demangle_type q.out
            (ask impl.discovered_nodes)
    ]
  ]

  unfoldable pub answer_by_node :
      (Text → Option Text)
      → (Text → Text → TextMap Node → NamesAndTypes)
      → Option Text
      → Option Text
      → Option (RmwRet × Out)
  answer_by_node demangle_type ask none node_namespace =
      some (validate_input_by_node q.allocator q.node none node_namespace q.check_zero, q.out)
  answer_by_node demangle_type ask (some name) none =
      some (validate_input_by_node q.allocator q.node (some name) none q.check_zero, q.out)
  answer_by_node demangle_type ask (some name) (some namespace_) =
      let ret =
        validate_input_by_node q.allocator q.node (some name) (some namespace_) q.check_zero in
      if is_ok ret then answer demangle_type (ask name namespace_) else some (ret, q.out)

  -- `no_demangle ? … : _demangle_if_ros_type`
  abbrev demangle_topic : Bool → Text → Option Text
  demangle_topic true s = some s
  demangle_topic false s = demangle_if_ros_type find_and_replace s

  unfoldable pub rmw_get_subscriber_names_and_types_by_node :
      Option Text → Option Text → Bool → Option (RmwRet × Out)
  rmw_get_subscriber_names_and_types_by_node node_name node_namespace no_demangle =
      answer_by_node (demangle_topic no_demangle) get_subscriber_names_and_types_by_node node_name
        node_namespace

  unfoldable pub rmw_get_publisher_names_and_types_by_node :
      Option Text → Option Text → Bool → Option (RmwRet × Out)
  rmw_get_publisher_names_and_types_by_node node_name node_namespace no_demangle =
      answer_by_node (demangle_topic no_demangle) get_publisher_names_and_types_by_node node_name
        node_namespace

  unfoldable pub rmw_get_service_names_and_types_by_node :
      Option Text → Option Text → Option (RmwRet × Out)
  rmw_get_service_names_and_types_by_node node_name node_namespace =
      answer_by_node (demangle_service_type_only find_and_replace)
        get_service_names_and_types_by_node node_name node_namespace

  unfoldable pub rmw_get_client_names_and_types_by_node :
      Option Text → Option Text → Option (RmwRet × Out)
  rmw_get_client_names_and_types_by_node node_name node_namespace =
      answer_by_node (demangle_service_type_only find_and_replace)
        get_client_names_and_types_by_node node_name node_namespace

  unfoldable pub rmw_get_topic_names_and_types : Bool → Option (RmwRet × Out)
  rmw_get_topic_names_and_types no_demangle =
      let ret = validate_input q.allocator q.node q.check_zero in
      if is_ok ret
      then answer (demangle_topic no_demangle) get_topic_names_and_types
      else some (ret, q.out)

  unfoldable pub rmw_get_service_names_and_types : Option (RmwRet × Out)
  rmw_get_service_names_and_types =
      let ret = validate_input q.allocator q.node q.check_zero in
      if is_ok ret
      then answer (demangle_service_type_only find_and_replace) get_service_names_and_types
      else some (ret, q.out)
