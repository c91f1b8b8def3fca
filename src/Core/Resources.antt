-- ===== src/Core/Resources.antt =====
-- pkg/core/user.go, group.go and enterprise_user.go: the attributes of the three resource schemas. The
-- address of an attribute is one of the range that its schema is given.
use scim_go.Prelude.{ℕ, Text, String, List, [], ◌∷◌, bytes}
use scim_go.Core.Kinds.{
  type_string, type_boolean, type_complex, type_reference, type_binary, returned_never,
  uniqueness_server,
}
use scim_go.Core.Attribute.{
  Attribute, new_attribute, element_attribute, as_required, as_multi_valued, as_read_only,
  as_immutable, as_write_only, returned_as, suggesting, referencing, as_inverse_of, unique_on,
  with_subs,
}

abbrev text_attribute : ℕ → String → Attribute
text_attribute address name = new_attribute address (bytes name) type_string

-- ReferenceExternal
abbrev external : List Text
external = bytes "external" ∷ []

abbrev user_or_group : List Text
user_or_group = bytes "User" ∷ bytes "Group" ∷ []

-- UserAttributes
unfoldable pub user_attributes : List Attribute
unfolding new_attribute element_attribute as_required as_multi_valued as_read_only as_write_only
    returned_as suggesting referencing as_inverse_of unique_on with_subs
user_attributes =
    unique_on uniqueness_server (as_required (text_attribute 16 "userName"))
    ∷ with_subs
        (text_attribute 18 "formatted"
          ∷ text_attribute 19 "familyName"
          ∷ text_attribute 20 "givenName"
          ∷ text_attribute 21 "middleName"
          ∷ text_attribute 22 "honorificPrefix"
          ∷ text_attribute 23 "honorificSuffix"
          ∷ [])
        (new_attribute 17 (bytes "name") type_complex)
    ∷ text_attribute 24 "displayName"
    ∷ text_attribute 25 "nickName"
    ∷ referencing external (new_attribute 26 (bytes "profileUrl") type_reference)
    ∷ text_attribute 27 "title"
    ∷ text_attribute 28 "userType"
    ∷ text_attribute 29 "preferredLanguage"
    ∷ text_attribute 30 "locale"
    ∷ text_attribute 31 "timezone"
    ∷ new_attribute 32 (bytes "active") type_boolean
    ∷ returned_as returned_never (as_write_only (text_attribute 33 "password"))
    ∷ element_attribute 34 (bytes "emails") (text_attribute 38 "value")
        (bytes "work" ∷ bytes "home" ∷ bytes "other" ∷ [])
    ∷ element_attribute 39 (bytes "phoneNumbers") (text_attribute 43 "value") (
        bytes "work"
        ∷ bytes "home"
        ∷ bytes "mobile"
        ∷ bytes "fax"
        ∷ bytes "pager"
        ∷ bytes "other"
        ∷ [])
    ∷ element_attribute 44 (bytes "ims") (text_attribute 48 "value") (
        bytes "aim"
        ∷ bytes "gtalk"
        ∷ bytes "icq"
        ∷ bytes "xmpp"
        ∷ bytes "msn"
        ∷ bytes "skype"
        ∷ bytes "qq"
        ∷ bytes "yahoo"
        ∷ [])
    ∷ element_attribute 49 (bytes "photos")
        (referencing external (new_attribute 53 (bytes "value") type_reference))
        (bytes "photo" ∷ bytes "thumbnail" ∷ [])
    ∷ with_subs
        (text_attribute 55 "formatted"
          ∷ text_attribute 56 "streetAddress"
          ∷ text_attribute 57 "locality"
          ∷ text_attribute 58 "region"
          ∷ text_attribute 59 "postalCode"
          ∷ text_attribute 60 "country"
          ∷ suggesting (bytes "work" ∷ bytes "home" ∷ bytes "other" ∷ []) (text_attribute 61 "type")
          ∷ new_attribute 62 (bytes "primary") type_boolean
          ∷ [])
        (as_multi_valued (new_attribute 54 (bytes "addresses") type_complex))
    ∷ with_subs
        (as_read_only (text_attribute 64 "value")
          ∷ as_read_only
              (referencing user_or_group (new_attribute 65 (bytes "$ref") type_reference))
          ∷ as_read_only (text_attribute 66 "display")
          ∷ as_read_only
              (suggesting (bytes "direct" ∷ bytes "indirect" ∷ []) (text_attribute 67 "type"))
          ∷ [])
        (as_inverse_of (bytes "members")
          (as_read_only (as_multi_valued (new_attribute 63 (bytes "groups") type_complex))))
    ∷ element_attribute 68 (bytes "entitlements") (text_attribute 72 "value") []
    ∷ element_attribute 73 (bytes "roles") (text_attribute 77 "value") []
    ∷ element_attribute 78 (bytes "x509Certificates") (new_attribute 82 (bytes "value") type_binary)
        []
    ∷ []

-- GroupAttributes
unfoldable pub group_attributes : List Attribute
unfolding new_attribute as_required as_multi_valued as_immutable suggesting referencing with_subs
group_attributes =
    as_required (text_attribute 83 "displayName")
    ∷ with_subs
        (as_required (as_immutable (text_attribute 85 "value"))
          ∷ as_immutable
              (referencing user_or_group (new_attribute 86 (bytes "$ref") type_reference))
          ∷ as_immutable (suggesting user_or_group (text_attribute 87 "type"))
          ∷ [])
        (as_multi_valued (new_attribute 84 (bytes "members") type_complex))
    ∷ []

-- EnterpriseUserAttributes
unfoldable pub enterprise_user_attributes : List Attribute
unfolding new_attribute as_read_only referencing with_subs
enterprise_user_attributes =
    text_attribute 88 "employeeNumber"
    ∷ text_attribute 89 "costCenter"
    ∷ text_attribute 90 "organization"
    ∷ text_attribute 91 "division"
    ∷ text_attribute 92 "department"
    ∷ with_subs
        (text_attribute 94 "value"
          ∷ referencing (bytes "User" ∷ []) (new_attribute 95 (bytes "$ref") type_reference)
          ∷ as_read_only (text_attribute 96 "displayName")
          ∷ [])
        (new_attribute 93 (bytes "manager") type_complex)
    ∷ []
