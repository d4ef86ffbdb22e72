-- ===== src/Platforms/Echo.antt =====
-- Nine clients of dns/providers as `dns.Provider`. Cloudflare is not among them: it returns the
-- record of the platform's reply.
use tu_dns.Prelude.{ℕ, ◌≡◌, refl, Option, if◌then◌else◌}
use tu_dns.Prelude.Int.{pos, leb_ℤ}
use tu_dns.Text.{Text, Letters, to_upper}
use tu_dns.Result.{ok}
use tu_dns.Dns.{Zone, RecordInput, RemoteRecord, Provider}
use tu_dns.Platforms.{Client, Decoders, normalized_ttl, echo}
use tu_dns.Platforms.Dnspod
use tu_dns.Platforms.Westcn
use tu_dns.Platforms.Dnsla
use tu_dns.Platforms.Xinnet
use tu_dns.Platforms.Baidu
use tu_dns.Platforms.Volcengine
use tu_dns.Platforms.Aliyun
use tu_dns.Platforms.Huaweicloud
use tu_dns.Platforms.Jdcloud
use tu_dns.Platforms.Yields.{Yields, returned, Yields-bind, Yields-present, yielded}

-- What lies outside of the clients.
pub record Outside : Type 0 where
  pub http : Client
  pub pod_json : Dnspod.PodJson
  pub json : Decoders
  pub go : Baidu.Runtime
  pub ali : Aliyun.AliyunTools
  pub huawei : Huaweicloud.HuaweiTools
  pub jd : Jdcloud.JdTools

-- The clients, each with its configuration.
pub data BuiltIn : Type 0 where
  dnspod : Dnspod.Dnspod → BuiltIn
  westcn : Westcn.Westcn → BuiltIn
  dnsla : Dnsla.Dnsla → BuiltIn
  xinnet : Xinnet.Xinnet → BuiltIn
  baidu : Option Baidu.BaiduClient → BuiltIn
  volcengine : Option Volcengine.VolcClient → BuiltIn
  aliyun : Aliyun.Aliyun → BuiltIn
  huaweicloud : Huaweicloud.Huaweicloud → BuiltIn
  jdcloud : Jdcloud.Jdcloud → BuiltIn

abbrev pub provider_of : Outside → BuiltIn → Provider
provider_of o (dnspod p) = Dnspod.provider o.http o.pod_json p
provider_of o (westcn p) = Westcn.provider o.http o.json p
provider_of o (dnsla p) = Dnsla.provider o.http o.json p
provider_of o (xinnet p) = Xinnet.provider o.http o.json p
provider_of o (baidu c) = Baidu.provider o.http.letters o.go c
provider_of o (volcengine c) = Volcengine.provider o.http.letters c
provider_of o (aliyun p) = Aliyun.provider o.http o.ali p
provider_of o (huaweicloud p) = Huaweicloud.provider o.http.letters o.huawei p
provider_of o (jdcloud p) = Jdcloud.provider o.http.letters o.jd p

-- The record that was asked for: the name and the value as they are, the type in upper case, and
-- the time to live, 600 seconds where none is asked for.
abbrev pub IsEcho : Letters → RecordInput → RemoteRecord → Type 0
IsEcho l i r =
    (r.name ≡ i.name)
    × ((r.type ≡ to_upper l i.type)
        × ((r.value ≡ i.value) × (r.ttl ≡ (if leb_ℤ i.ttl (pos 0) then pos 600 else i.ttl))))

echo-IsEcho :
    (l : Letters) (id : Text) (i : RecordInput) (line : Text) → IsEcho l i (echo l id i line)
unfolding normalized_ttl
echo-IsEcho l id i line = (refl, (refl, (refl, refl)))

module _ (o : Outside) (m : ℕ) (z : Zone) (i : RecordInput) where
  creates : (b : BuiltIn) → Yields (IsEcho o.http.letters i) ((provider_of o b).create_record m z i)
  unfolding Dnspod.create_record Westcn.create_record Dnsla.create_record Xinnet.create_record
      Baidu.create_record Volcengine.create_record Aliyun.create_record Huaweicloud.create_record
      Jdcloud.create_record
  creates (dnspod p) = search (Yields-bind, returned, echo-IsEcho)
  creates (westcn p) = search (Yields-bind, returned, echo-IsEcho)
  creates (dnsla p) = search (Yields-bind, returned, echo-IsEcho)
  creates (xinnet p) = search (Yields-bind, returned, echo-IsEcho)
  creates (baidu p) = search (Yields-bind, returned, echo-IsEcho) depth 10
  creates (volcengine p) = search (Yields-bind, Yields-present, returned, echo-IsEcho) depth 10
  creates (aliyun p) = search (Yields-bind, returned, echo-IsEcho)
  creates (huaweicloud p) = search (Yields-bind, returned, echo-IsEcho) depth 10
  creates (jdcloud p) = search (Yields-bind, returned, echo-IsEcho) depth 10

  -- The record that a client returns for a new one is the one that was asked for.
  pub create_record-IsEcho :
      (b : BuiltIn) (r : RemoteRecord)
      → (provider_of o b).create_record m z i ≡ ok r
      → IsEcho o.http.letters i r
  create_record-IsEcho b r e = yielded _ r (creates b) e

  updates :
      (id : Text) (b : BuiltIn)
      → Yields
          (λ r. IsEcho o.http.letters i r × (r.remote_id ≡ id))
          ((provider_of o b).update_record m z id i)
  unfolding Dnspod.update_record Westcn.update_record Dnsla.update_record Xinnet.update_record
      Baidu.update_record Volcengine.update_record Aliyun.update_record Huaweicloud.update_record
      Jdcloud.update_record
  updates id (dnspod p) = search (Yields-bind, returned, echo-IsEcho)
  updates id (westcn p) = search (Yields-bind, returned, echo-IsEcho)
  updates id (dnsla p) = search (Yields-bind, returned, echo-IsEcho)
  updates id (xinnet p) = search (Yields-bind, returned, echo-IsEcho)
  updates id (baidu p) = search (Yields-bind, returned, echo-IsEcho) depth 10
  updates id (volcengine p) = search (Yields-bind, returned, echo-IsEcho) depth 10
  updates id (aliyun p) = search (Yields-bind, returned, echo-IsEcho)
  updates id (huaweicloud p) = search (Yields-bind, returned, echo-IsEcho) depth 10
  updates id (jdcloud p) = search (Yields-bind, returned, echo-IsEcho) depth 10

  -- The record that a client returns for a changed one is the one that was asked for, under its id.
  pub update_record-IsEcho :
      (b : BuiltIn) (id : Text) (r : RemoteRecord)
      → (provider_of o b).update_record m z id i ≡ ok r
      → IsEcho o.http.letters i r × (r.remote_id ≡ id)
  update_record-IsEcho b id r e = yielded _ r (updates id b) e
