-- ===== src/DeepCopy/Deep.antt =====
-- The copies of the custom resource and of its list are deep.
use nodedeploy_controller.Prelude.{ℕ, String, Option, none, List, refl}
use nodedeploy_controller.DeepCopy.{
  Types, Library, Cell, SpecValue, StatusValue, DeployValue, DeployListValue, TypeMeta, both,
  unless_nil, into_new, map_entries, string_map, taint_elements, taint_array, deploy_elements,
  deploy_array, deploy_list_elements, deploy_list_array, map_deep_copy, spec_deep_copy_into,
  status_deep_copy_into, deploy_deep_copy_into, deploy_list_deep_copy_into, deploy_deep_copy,
  deploy_list_deep_copy,
}
use nodedeploy_controller.DeepCopy.Laws.{
  Lives, IsCopied, IsDeep, assign-IsDeep, both-IsDeep, unless_nil-IsDeep, into_new-IsDeep,
  update-IsDeep, read_both, read_pointer, read_array, read_struct,
}

-- What the libraries document of their copies: that they are deep, as their values are read.
pub record DeepLibrary {T : Types} (L : Library T) : Type 1 where
  pub ObjectMetaContent : Type 0
  pub ListMetaContent : Type 0
  pub TaintContent : Type 0
  pub TimeContent : Type 0
  pub read_object_meta : List (Cell T) → T.ObjectMeta → ObjectMetaContent
  pub read_list_meta : List (Cell T) → T.ListMeta → ListMetaContent
  pub read_taint : List (Cell T) → T.Taint → TaintContent
  pub read_time : List (Cell T) → ℕ → TimeContent
  pub object_meta-IsDeep : IsDeep read_object_meta L.object_meta_deep_copy
  pub list_meta-IsDeep : IsDeep read_list_meta L.list_meta_deep_copy
  pub taint-IsDeep : IsDeep read_taint L.taint_deep_copy
  pub time-IsDeep : IsDeep read_time L.time_deep_copy

-- The fields that hold a reference, and the others.
abbrev spec_references : SpecValue → Option ℕ × (Option ℕ × Option ℕ)
spec_references spec = (spec.labels, (spec.annotations, spec.taints))

abbrev spec_plain : SpecValue → SpecValue
spec_plain spec = record spec { labels = none; annotations = none; taints = none }

abbrev status_plain : StatusValue → StatusValue
status_plain status = record status { deadline = none }

module _ (T : Types) (L : Library T) (D : DeepLibrary L) where
  -- What a value in memory holds, with everything that it refers to.
  abbrev read_map : List (Cell T) → Option ℕ → Option (List (String × String))
  read_map = read_pointer (read_array (λ h e. e) map_entries)

  abbrev read_taints : List (Cell T) → Option ℕ → Option (List D.TaintContent)
  read_taints = read_pointer (read_array D.read_taint taint_elements)

  abbrev MapContent : Type 0
  MapContent = Option (List (String × String))

  abbrev SpecContent : Type 0
  SpecContent = SpecValue × (MapContent × (MapContent × Option (List D.TaintContent)))

  abbrev pub read_spec : List (Cell T) → SpecValue → SpecContent
  read_spec =
      read_struct spec_plain spec_references (read_both read_map (read_both read_map read_taints))

  abbrev StatusContent : Type 0
  StatusContent = StatusValue × Option D.TimeContent

  abbrev pub read_status : List (Cell T) → StatusValue → StatusContent
  read_status = read_struct status_plain (λ status. status.deadline) (read_pointer D.read_time)

  abbrev DeployContent : Type 0
  DeployContent = TypeMeta × (D.ObjectMetaContent × (SpecContent × StatusContent))

  abbrev pub read_deploy : List (Cell T) → DeployValue T → DeployContent
  read_deploy =
      read_struct (λ d. d.type_meta) (λ d. (d.object_meta, (d.spec, d.status)))
        (read_both D.read_object_meta (read_both read_spec read_status))

  abbrev pub read_deploys : List (Cell T) → Option ℕ → Option (List DeployContent)
  read_deploys = read_pointer (read_array read_deploy deploy_elements)

  abbrev pub read_deploy_list :
      List (Cell T)
      → DeployListValue T
      → TypeMeta × (D.ListMetaContent × Option (List DeployContent))
  read_deploy_list =
      read_struct (λ l. l.type_meta) (λ l. (l.list_meta, l.items))
        (read_both D.read_list_meta read_deploys)

  abbrev pub read_deploy_lists :
      List (Cell T)
      → Option ℕ
      → Option (List (TypeMeta × (D.ListMetaContent × Option (List DeployContent))))
  read_deploy_lists = read_pointer (read_array read_deploy_list deploy_list_elements)

  map-IsDeep : IsDeep read_map map_deep_copy
  unfolding map_deep_copy
  map-IsDeep =
      unless_nil-IsDeep _ _
        (into_new-IsDeep _ _ map_entries string_map refl (λ xs. refl) assign-IsDeep)

  spec-IsDeep : IsDeep read_spec (spec_deep_copy_into T L)
  unfolding spec_deep_copy_into
  spec-IsDeep =
      update-IsDeep spec_plain spec_references
        (λ spec (l, (a, t)). record spec { labels = l; annotations = a; taints = t })
        (read_both read_map (read_both read_map read_taints))
        (both map_deep_copy
          (both map_deep_copy (unless_nil (into_new taint_elements taint_array L.taint_deep_copy))))
        (λ spec b. refl) (λ spec b. refl)
        (both-IsDeep _ _ _ _ map-IsDeep (
          both-IsDeep _ _ _ _ map-IsDeep (
            unless_nil-IsDeep _ _
              (into_new-IsDeep _ _ taint_elements taint_array refl (λ xs. refl) D.taint-IsDeep))))

  status-IsDeep : IsDeep read_status (status_deep_copy_into T L)
  unfolding status_deep_copy_into
  status-IsDeep =
      update-IsDeep status_plain (λ status. status.deadline)
        (λ status t. record status { deadline = t }) (read_pointer D.read_time)
        (unless_nil L.time_deep_copy) (λ status b. refl) (λ status b. refl)
        (unless_nil-IsDeep _ _ D.time-IsDeep)

  deploy-IsDeep : IsDeep read_deploy (deploy_deep_copy_into T L)
  unfolding deploy_deep_copy_into
  deploy-IsDeep =
      update-IsDeep (λ d. d.type_meta) (λ d. (d.object_meta, (d.spec, d.status)))
        (λ d (m, (s, t)). record d { object_meta = m; spec = s; status = t })
        (read_both D.read_object_meta (read_both read_spec read_status))
        (both L.object_meta_deep_copy (both (spec_deep_copy_into T L) (status_deep_copy_into T L)))
        (λ d b. refl) (λ d b. refl)
        (both-IsDeep _ _ _ _ D.object_meta-IsDeep (both-IsDeep _ _ _ _ spec-IsDeep status-IsDeep))

  deploys-IsDeep :
      IsDeep read_deploys
        (unless_nil (into_new deploy_elements deploy_array (deploy_deep_copy_into T L)))
  deploys-IsDeep =
      unless_nil-IsDeep _ _
        (into_new-IsDeep _ _ deploy_elements deploy_array refl (λ xs. refl) deploy-IsDeep)

  deploy_list-IsDeep : IsDeep read_deploy_list (deploy_list_deep_copy_into T L)
  unfolding deploy_list_deep_copy_into
  deploy_list-IsDeep =
      update-IsDeep (λ l. l.type_meta) (λ l. (l.list_meta, l.items))
        (λ l (m, i). record l { list_meta = m; items = i })
        (read_both D.read_list_meta read_deploys)
        (both L.list_meta_deep_copy
          (unless_nil (into_new deploy_elements deploy_array (deploy_deep_copy_into T L))))
        (λ l b. refl) (λ l b. refl) (both-IsDeep _ _ _ _ D.list_meta-IsDeep deploys-IsDeep)

  -- `DeepCopy` of a NodeDeploy that is in memory, or of nil, leaves memory as it was but for new cells, and
  -- the copy has the contents of the original, also after anything is written to the cells that were there
  -- before and more is allocated, so that it depends on no map, slice or pointer of the original. The copies
  -- of apimachinery and corev1 are deep in the same sense.
  pub deploy_deep_copy_detached :
      (p : Option ℕ) (h : List (Cell T))
      → Lives read_deploys h p
      → IsCopied read_deploys (deploy_deep_copy T L) p h
  unfolding deploy_deep_copy
  deploy_deep_copy_detached = deploys-IsDeep.at

  -- `DeepCopy` of a NodeDeployList that is in memory, or of nil, leaves memory as it was but for new cells,
  -- and the copy has the contents of the original with all of its items, also after anything is written
  -- to the cells that were there before and more is allocated. The copies of apimachinery and corev1 are
  -- deep in the same sense.
  pub deploy_list_deep_copy_detached :
      (p : Option ℕ) (h : List (Cell T))
      → Lives read_deploy_lists h p
      → IsCopied read_deploy_lists (deploy_list_deep_copy T L) p h
  unfolding deploy_list_deep_copy
  deploy_list_deep_copy_detached =
      (unless_nil-IsDeep _ _ (
        into_new-IsDeep _ _ deploy_list_elements deploy_list_array refl (λ xs. refl)
          deploy_list-IsDeep)).at
