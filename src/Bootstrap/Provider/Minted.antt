-- ===== src/Bootstrap/Provider/Minted.antt =====
-- When the provider mints a token, and what the user data is then made of.
use mathlib.Core.Path.{subst}
use karpenter_provider_hclou.Base.{
  ◌≡◌, refl, ◌∷◌, ◌++◌, inl, inr, sym, ap, ◌∙◌, false, ◌||◌, String, is_empty, Bool-cases, ◌==◌, string_comparable,
}
use karpenter_provider_hclou.Api.NodeClass.{HCloudNodeClass}
use karpenter_provider_hclou.Bootstrap.CloudInit as CloudInit
use karpenter_provider_hclou.Bootstrap.CloudInit.{UserData}
use karpenter_provider_hclou.Bootstrap.CloudInit.Rendered.{IsRendered, render-IsRendered}
use karpenter_provider_hclou.Bootstrap.Kubeadm.{JoinInput, unregistered_taint, join_configuration}
use karpenter_provider_hclou.Bootstrap.Provider.{Provider, join_input, node_taints, render}
use karpenter_provider_hclou.Bootstrap.Token.{Minting, Secret, mint}
use karpenter_provider_hclou.Bootstrap.Token.Owned.{IsMinted, mint-IsMinted}
use karpenter_provider_hclou.Hcloudapi.Errors.{ok, Result-cases, err-ne-ok}
use karpenter_provider_hclou.Karpenter.{NodeClaim}

module _ (m : Minting) where
  open m use {World}

  -- The token is minted and the document rendered with it: the configuration that the document carries,
  -- marshalled, is one with that token, with the endpoint and the pins of the NodeClass's status, and
  -- with the taints of the claim after karpenter's own.
  abbrev pub IsLaunchable :
      {R : Type 0} → Provider → HCloudNodeClass → NodeClaim R → World → UserData → World → Type 0
  IsLaunchable p node_class node_claim w out after =
      (token : String) × (secret : Secret) × (before : World) × (input : JoinInput)
      × (mint m p.ttl node_claim p.cluster_name w ≡ (ok token, after))
      × IsMinted m p.ttl node_claim token secret before after
      × IsRendered p.encoding node_class.spec.bootstrap input out
      × ((join_configuration input).bootstrap_token
        ≡ record {
          api_server_endpoint = node_class.status.api_server_endpoint;
          token = token;
          ca_cert_hashes = node_class.status.ca_cert_hashes;
        })
      × ((join_configuration input).node_registration.taints
        ≡ unregistered_taint ∷ (node_claim.taints ++ node_claim.startup_taints))

  join_input-join_configuration :
      {R : Type 0} (node_class : HCloudNodeClass) (node_claim : NodeClaim R) (token : String)
      → ((join_configuration (join_input node_class node_claim token)).bootstrap_token
          ≡ record {
            api_server_endpoint = node_class.status.api_server_endpoint;
            token = token;
            ca_cert_hashes = node_class.status.ca_cert_hashes;
          })
        × ((join_configuration (join_input node_class node_claim token)).node_registration.taints
          ≡ unregistered_taint ∷ (node_claim.taints ++ node_claim.startup_taints))
  unfolding join_configuration join_input node_taints
  join_input-join_configuration node_class node_claim token = (refl, refl)

  render-resolved :
      {R : Type 0} (p : Provider) (node_class : HCloudNodeClass) (node_claim : NodeClaim R)
      (w : World) (token : String)
      → (node_class.status.api_server_endpoint == "" || is_empty node_class.status.ca_cert_hashes)
        ≡ false
      → (mint m p.ttl node_claim p.cluster_name w).0 ≡ ok token
      → render m p node_class node_claim w ≡ (
        CloudInit.render p.encoding node_class.spec.bootstrap
            (join_input node_class node_claim token),
        (mint m p.ttl node_claim p.cluster_name w).1,
      )
  unfolding render
  render-resolved p node_class node_claim w token resolved minted = simp (resolved, minted, render)

  -- User data comes out only with a token minted for it in this call, once: the Secret of the token is
  -- stored, owned by the claim and expiring; and the join configuration whose text the user data has is
  -- one with exactly that token, with the endpoint and the pins in the status of the NodeClass, and with
  -- karpenter's unregistered taint before the claim's taints and startup taints.
  pub render-IsLaunchable :
      {R : Type 0} (p : Provider) (node_class : HCloudNodeClass) (node_claim : NodeClaim R)
      (w : World) (out : UserData)
      → (render m p node_class node_claim w).0 ≡ ok out
      → IsLaunchable p node_class node_claim w out (render m p node_class node_claim w).1
  unfolding render
  render-IsLaunchable p node_class node_claim w out h =
      elim (Bool-cases (
        node_class.status.api_server_endpoint == "" || is_empty node_class.status.ca_cert_hashes)) [
          | inl unresolved ↦ absurd (err-ne-ok (rw (unresolved, render) at h))
          | inr resolved ↦ elim (Result-cases (mint m p.ttl node_claim p.cluster_name w).0) [
            | inr (e, failed) ↦ absurd (err-ne-ok (rw (resolved, failed, render) at h))
            | inl (token, minted) ↦
                let after = (mint m p.ttl node_claim p.cluster_name w).1 in
                let same = render-resolved p node_class node_claim w token resolved minted in
                let (joining, tainted) =
                  join_input-join_configuration node_class node_claim token in
                let (secret, before, owned) =
                  mint-IsMinted m p.ttl node_claim p.cluster_name token w minted in
                subst (IsLaunchable p node_class node_claim w out) (sym (ap (λ r. r.1) same)) (
                  token,
                  secret,
                  before,
                  join_input node_class node_claim token,
                  λ i. (minted i, after),
                  owned,
                  render-IsRendered p.encoding node_class.spec.bootstrap
                      (join_input node_class node_claim token) out (sym (ap (λ r. r.0) same) ∙ h),
                  joining,
                  tainted,
                )
          ]
        ]
