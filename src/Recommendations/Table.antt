-- ===== src/Recommendations/Table.antt =====
-- NewAdvisor of pkg/recommendations/recommendations.go: the advisory templates.
use iamzero.Prelude.{String, List, [], ◌∷◌}
use iamzero.Recommendations.{AdvisoryTemplate}

abbrev read_table : AdvisoryTemplate
read_table = record {
  policy =
      (record {
        action =
            "dynamodb:GetItem" ∷ "dynamodb:BatchGetItem" ∷ "dynamodb:Scan" ∷ "dynamodb:Query"
            ∷ "dynamodb:ConditionCheckItem" ∷ [];
        resource = "arn:aws:dynamodb:{{ .Region }}:{{ .Account }}:table/{{ .Table }}" ∷ [];
      })
      ∷ [];
  comment = "Allow all read-only actions on the table";
  doc_link =
      "https://docs.aws.amazon.com/amazondynamodb/latest/developerguide/read-only-permissions-on-table-items.html";
}

abbrev read_write_table : AdvisoryTemplate
read_write_table = record {
  policy =
      (record {
        action =
            "dynamodb:GetShardIterator" ∷ "dynamodb:Scan" ∷ "dynamodb:Query"
            ∷ "dynamodb:DescribeStream" ∷ "dynamodb:GetRecords" ∷ "dynamodb:ListStreams" ∷ [];
        resource =
            "arn:aws:dynamodb:{{ .Region }}:{{ .Account }}:table/{{ .Table }}/index/*"
            ∷ "arn:aws:dynamodb:{{ .Region }}:{{ .Account }}:table/{{ .Table }}/stream/*" ∷ [];
      })
      ∷ (record {
        action =
            "dynamodb:BatchGetItem" ∷ "dynamodb:BatchWriteItem" ∷ "dynamodb:ConditionCheckItem"
            ∷ "dynamodb:PutItem" ∷ "dynamodb:DescribeTable" ∷ "dynamodb:DeleteItem"
            ∷ "dynamodb:GetItem" ∷ "dynamodb:Scan" ∷ "dynamodb:Query" ∷ "dynamodb:UpdateItem" ∷ [];
        resource = "arn:aws:dynamodb:{{ .Region }}:{{ .Account }}:table/{{ .Table }}" ∷ [];
      })
      ∷ (record {
        action = "dynamodb:DescribeLimits" ∷ [];
        resource =
            "arn:aws:dynamodb:{{ .Region }}:{{ .Account }}:table/{{ .Table }}"
            ∷ "arn:aws:dynamodb:{{ .Region }}:{{ .Account }}:table/{{ .Table }}/index/*" ∷ [];
      })
      ∷ [];
  comment = "Allow read and write operations on the table";
  doc_link =
      "https://docs.aws.amazon.com/amazondynamodb/latest/developerguide/iam-policy-example-data-crud.html";
}

abbrev put_object : AdvisoryTemplate
put_object = record {
  policy =
      (record { action = "s3:PutObject" ∷ []; resource = "arn:aws:s3:::{{ .Bucket }}" ∷ [] }) ∷ [];
  comment = "Allow PutObject access to the bucket";
  doc_link = "";
}

abbrev create_bucket : AdvisoryTemplate
create_bucket = record {
  policy =
      (record { action = "s3:CreateBucket" ∷ []; resource = "arn:aws:s3:::{{ .Bucket }}" ∷ [] })
      ∷ [];
  comment = "Allow creating the specific bucket";
  doc_link = "";
}

abbrev create_all_buckets : AdvisoryTemplate
create_all_buckets = record {
  policy = (record { action = "s3:CreateBucket" ∷ []; resource = "arn:aws:s3:::*" ∷ [] }) ∷ [];
  comment = "Allow creating all buckets";
  doc_link = "";
}

abbrev delete_bucket : AdvisoryTemplate
delete_bucket = record {
  policy =
      (record { action = "s3:DeleteBucket" ∷ []; resource = "arn:aws:s3:::{{ .Bucket }}" ∷ [] })
      ∷ [];
  comment = "Allow deleting the specific bucket";
  doc_link = "";
}

abbrev delete_all_buckets : AdvisoryTemplate
delete_all_buckets = record {
  policy = (record { action = "s3:DeleteBucket" ∷ []; resource = "arn:aws:s3:::*" ∷ [] }) ∷ [];
  comment = "Allow deleting all buckets";
  doc_link = "";
}

abbrev head_object : AdvisoryTemplate
head_object = record {
  policy =
      (record { action = "s3:GetObject" ∷ []; resource = "arn:aws:s3:::{{ .Bucket }}/*" ∷ [] })
      ∷ [];
  comment = "Allow access to the bucket";
  doc_link = "";
}

abbrev list_objects : AdvisoryTemplate
list_objects = record {
  policy =
      (record { action = "s3:GetObject" ∷ []; resource = "arn:aws:s3:::{{ .Bucket }}/*" ∷ [] })
      ∷ [];
  comment = "Allow access to the bucket";
  doc_link = "";
}

abbrev list_buckets : AdvisoryTemplate
list_buckets = record {
  policy = (record { action = "s3:ListBucket" ∷ []; resource = "arn:aws:s3:::*" ∷ [] }) ∷ [];
  comment = "Allows ListObject access to all buckets";
  doc_link = "";
}

unfoldable pub alerts_mapping : List (String × List AdvisoryTemplate)
alerts_mapping =
    ("dynamodb:GetItem", read_table ∷ read_write_table ∷ [])
    ∷ ("s3:PutObject", put_object ∷ [])
    ∷ ("s3:CreateBucket", create_bucket ∷ create_all_buckets ∷ [])
    ∷ ("s3:DeleteBucket", delete_bucket ∷ delete_all_buckets ∷ [])
    ∷ ("s3:HeadObject", head_object ∷ [])
    ∷ ("s3:ListObjects", list_objects ∷ [])
    ∷ ("s3:ListBuckets", list_buckets ∷ [])
    ∷ []
