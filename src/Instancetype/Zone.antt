-- ===== src/Instancetype/Zone.antt =====
-- internal/providers/instancetype/zone.go: the zone label that hcloud-cloud-controller-manager
-- writes on a node of a location.
use karpenter_provider_hclou.Base.{String, if◌then◌else◌, ◌==◌, string_comparable}

unfoldable pub legacy_datacenter_for_location : String → String
legacy_datacenter_for_location location =
    if location == "nbg1"
    then "nbg1-dc3"
    else if location == "hel1"
    then "hel1-dc2"
    else if location == "fsn1"
    then "fsn1-dc14"
    else if location == "ash"
    then "ash-dc1"
    else if location == "hil"
    then "hil-dc1"
    else if location == "sin"
    then "sin-dc1"
    else location
