-- ===== src/Sizes/Kinds.antt =====
-- server.go: detectArtifactType, the kind of artifact that a manifest describes.
use registry_ui_go.Base.{
  suc, Bool, true, false, Option, none, some, [], if◌then◌else◌, Text, codes, ◌==◌,
  text_eq_instance, ◌||◌, is_empty, pos,
}
use registry_ui_go.Sizes.Decoded.{
  plus_infinite, below_one, finite, float, Json, number, Fields, member, as_text, as_object,
}

-- detectArtifactType: what the mediaType of the config says
unfoldable pub config_type : Text → Text
config_type media =
    if media == codes "application/vnd.cncf.helm.config.v1+json"
    then codes "helm-chart"
    else if media == codes "application/vnd.syft+json"
        || media == codes "application/spdx+json"
        || media == codes "application/vnd.spdx+json"
        || media == codes "application/vnd.cyclonedx+json"
    then codes "sbom"
    else if media == codes "application/vnd.dsse+json"
    then codes "attestation"
    else codes "image"

abbrev pub config_media : Option Fields → Text
config_media none = []
config_media (some config) = as_text (member config (codes "mediaType"))

-- `schemaVersion > 0` for a float64
abbrev pub is_positive_version : Json → Bool
is_positive_version (number (float (finite (pos (suc n))))) = true
is_positive_version (number (float below_one)) = true
is_positive_version (number (float plus_infinite)) = true
is_positive_version _ = false

unfoldable pub type_of_media : Text → Fields → Text
type_of_media media m =
    if media == codes "application/vnd.docker.distribution.manifest.list.v2+json"
      || media == codes "application/vnd.oci.image.index.v1+json"
    then codes "manifest-list"
    else if media == codes "application/vnd.docker.distribution.manifest.v2+json"
        || media == codes "application/vnd.oci.image.manifest.v1+json"
    then config_type (config_media (as_object (member m (codes "config"))))
    else if media == codes "application/vnd.docker.distribution.manifest.v1+json"
        || media == codes "application/vnd.docker.distribution.manifest.v1+prettyjws"
    then codes "image-legacy"
    else if is_positive_version (member m (codes "schemaVersion"))
    then codes "unknown"
    else []

abbrev pub type_of_object : Text → Option Fields → Text
type_of_object content_type none = []
type_of_object content_type (some m) =
    let media = as_text (member m (codes "mediaType")) in
    type_of_media (if is_empty media then content_type else media) m

unfoldable pub detect_artifact_type : Text → Json → Text
detect_artifact_type content_type manifest = type_of_object content_type (as_object manifest)
