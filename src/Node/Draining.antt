-- ===== src/Node/Draining.antt =====
-- Draining a node: cordon it, then evict its pods.
use nodedeploy_controller.Prelude.{
  String, Bool, true, false, List, [], ◌∷◌, ◌≡◌, refl, ◌≢◌, Option, none, some,
}
use nodedeploy_controller.Api.{Node}
use nodedeploy_controller.Machine.{Error, ok, Effect, cordon_node, evict_pods}
use nodedeploy_controller.Machine.Plans.{Plan, must, Performs}
use nodedeploy_controller.Machine.Plans.Rules.{
  Performs-pure, Performs-fail, Performs-perform, Performs-bind, Performs-called,
}
use nodedeploy_controller.Env.{Env}
use nodedeploy_controller.Env.Laws.{IsListing}
use nodedeploy_controller.Node.{error_or_done, delete_pods, drain_node}

-- The effects of a draining.
abbrev Cordon : String → Effect → Type 0
Cordon name e = e ≡ cordon_node name

abbrev Evict : Effect → Type 0
Evict e = (pods : List String) × (e ≡ evict_pods pods)

-- Draining where it is asked for.
abbrev pub draining : Bool → Node → Plan
draining false node = []
draining true node = must (Cordon node.name) ∷ must Evict ∷ []

module _ (E : Env) where
  error_or_done-Performs : (o : Option Error) → Performs [] (error_or_done E o)
  unfolding error_or_done
  error_or_done-Performs none = Performs-pure tt
  error_or_done-Performs (some e) = Performs-fail [] e

  module _ (listing : IsListing E.cluster E.library.aggregate) where
    refused_pods :
        (pods : List String) (errs : List Error) (o : Option Error)
        → o ≢ none
        → Performs (must Evict ∷ []) (error_or_done E o)
    unfolding error_or_done
    refused_pods pods errs none some_error = absurd (some_error refl)
    refused_pods pods errs (some e) some_error = Performs-fail _ e

    delete_pods-Performs :
        (name : String) (w : E.World) (pods : List String) (errs : Option (List Error))
        → (E.cluster.get_pods_for_deletion name w).0 ≡ ok (pods, errs)
        → Performs (must Evict ∷ []) (delete_pods E pods errs)
    unfolding delete_pods
    delete_pods-Performs name w pods none listed =
        Performs-perform Evict _ _ (λ es. refl) (pods, refl)
    delete_pods-Performs name w pods (some errs) listed =
        refused_pods pods errs _ (listing.reports name w pods errs listed)

    pub drain_node-Performs : (node : Node) → Performs (draining true node) (drain_node E node)
    unfolding drain_node
    drain_node-Performs node =
        Performs-bind _ _ (Performs-perform (Cordon node.name) _ _ (λ es. refl) refl) λ patched.
          Performs-bind _ _ (error_or_done-Performs patched.1) λ _.
            Performs-bind _ _ (error_or_done-Performs patched.0) λ _.
              Performs-called _ _
                λ w listed eq. delete_pods-Performs node.name w listed.0 listed.1 eq
